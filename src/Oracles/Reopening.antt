-- ===== src/Oracles/Reopening.antt =====
-- What the oracles of examples/ rely on of the file system when they open an image again.
use winluks.Base.{
  ℕ, ◌<◌, ◌≡◌, refl, ap, ◌∙◌, Bool, true, false, some, List, [], ◌∷◌, arith, if◌then◌else◌, not,
}
use winluks.Base.Words.{u64_size}
use winluks.Error.{ok, ok_or, >>=-ok, reject_if-ok, unsupported_profile, backend_io}
use winluks.Image.Os.{Backend, IsFile}
use winluks.Image.{Image, AccessMode, is_read_write}
use winluks.Image.Open.{
  FileSystem, FileMeta, OpenOptions, open_unix, open_windows, open_windows-IsLocal, windows_options,
  image_of, Sharing, Flag,
}
use winluks.Oracles.{Place, open_image}

module _ {B : Backend} (L : IsFile B) where
  -- The length that the file system reports of an open file is that of the file, in 64 bits.
  pub record Describes (F : FileSystem B) : Type 0 where
    pub described : (f : B.File) (meta : FileMeta) → F.metadata f ≡ some meta → meta.len ≡ L.size f
    pub short : (f : B.File) (meta : FileMeta) → F.metadata f ≡ some meta → meta.len < u64_size

  -- A file system in which the path leads to the file that `f` was a handle of.
  pub record Leads (path : List ℕ) (f : B.File) (F : FileSystem B) : Type 0 where
    pub describes : Describes F
    pub same :
        (options : OpenOptions) (g : B.File)
        → F.open_file options path ≡ some g
        → (i : ℕ) → L.contents g i ≡ L.contents f i
    pub same_size :
        (options : OpenOptions) (g : B.File)
        → F.open_file options path ≡ some g
        → L.size g ≡ L.size f

  -- An image that was opened: on which file, and of which length.
  pub record IsOpened (F : FileSystem B) (path : List ℕ) (mode : AccessMode) (im : Image B)
      : Type 0 where
    pub options : OpenOptions
    pub opened : F.open_file options path ≡ some im.file
    pub meta : FileMeta
    pub described : F.metadata im.file ≡ some meta
    pub sized : im.len ≡ meta.len
    pub same_mode : im.mode ≡ mode

  open_unix-IsOpened :
      (F : FileSystem B) (path : List ℕ) (mode : AccessMode) (im : Image B)
      → open_unix F path mode ≡ ok im
      → IsOpened F path mode im
  unfolding open_unix
  open_unix-IsOpened F path mode im e =
      let options : OpenOptions = record {
        read = true;
        write = is_read_write mode;
        sharing = Sharing.share_read;
        custom_flags = Flag.no_follow ∷ Flag.nonblock ∷ Flag.cloexec ∷ [];
      } in
      let file = >>=-ok (ok_or (F.open_file options path) backend_io) _ e in
      let meta = >>=-ok (ok_or (F.metadata file.0) backend_io) _ file.2 in
      let regular = reject_if-ok (not meta.0.is_file) unsupported_profile _ meta.2 in
      let locked =
        reject_if-ok (not (F.flock (is_read_write mode) file.0)) backend_io _ regular.1 in
      let same : image_of F file.0 meta.0 mode ≡ im = cc (locked.1) in
      rw (← same) (record {
        options = options;
        opened = ground (arith, file.1);
        meta = meta.0;
        described = ground (arith, meta.1);
        sized = refl;
        same_mode = refl;
      })

  open_windows-IsOpened :
      (F : FileSystem B) (path : List ℕ) (mode : AccessMode) (im : Image B)
      → open_windows F (some path) mode ≡ ok im
      → IsOpened F path mode im
  open_windows-IsOpened F path mode im e =
      let local = open_windows-IsLocal F (some path) mode im e in
      let same : path ≡ local.text = ground (arith, local.valid) in
      record {
        options = windows_options F mode;
        opened = ap (λ p. F.open_file (windows_options F mode) p) same ∙ local.opened;
        meta = local.meta;
        described = local.described;
        sized = local.sized;
        same_mode = local.same_mode;
      }

  pub open_image-IsOpened :
      (F : FileSystem B) (place : Place) (mode : AccessMode) (im : Image B)
      → open_image F place mode ≡ ok im
      → IsOpened F place.path mode im
  open_image-IsOpened F place mode im = by_build place.windows
    where
      by_build :
          (windows : Bool)
          → (if windows then open_windows F (some place.path) mode else open_unix F place.path mode)
            ≡ ok im
          → IsOpened F place.path mode im
      by_build true e = open_windows-IsOpened F place.path mode im e
      by_build false e = open_unix-IsOpened F place.path mode im e
