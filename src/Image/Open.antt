-- ===== src/Image/Open.antt =====
-- `Image::open_with_mode` of src/image.rs, in its Unix and its Windows build. The calls of the
-- system are parameters; each is made once, on the one handle that was opened.
use winluks.Base.{ℕ, ◌≡◌, ◌≢◌, ◌↔◌, refl, Bool, true, false, List, [], ◌∷◌, arith}
use winluks.Base.{
  not, ltb, leb, ◌==◌, ◌!=◌, ◌||◌, ◌&&◌, Option, none, some, if◌then◌else◌, length, take, drop,
  get_or,
}
use winluks.Error.{
  Result, ok, ◌>>=◌, ◌>>◌, reject_if, ok_or, >>=-ok, reject_if-ok, backend_io, unsupported_profile,
}
use winluks.Image.Os.{Backend}
use winluks.Image.{Image, AccessMode, is_read_write}

pub data Sharing : Type 0 where
  share_read share_none : Sharing

pub data Flag : Type 0 where
  no_follow nonblock cloexec open_reparse_point write_through : Flag

-- `OpenOptions`, with the extension of the platform.
pub record OpenOptions : Type 0 where
  pub read : Bool
  pub write : Bool
  pub sharing : Sharing
  pub custom_flags : List Flag

-- `std::fs::Metadata`
pub record FileMeta : Type 0 where
  pub is_file : Bool
  pub len : ℕ
  pub is_reparse_point : Bool

-- What the file system says of a path and of an open file; `none` is an I/O error.
pub record FileSystem (B : Backend) : Type 0 where
  pub open_file : OpenOptions → List ℕ → Option B.File
  pub metadata : B.File → Option FileMeta
  -- `flock` without blocking, exclusive or shared, succeeds
  pub flock : Bool → B.File → Bool
  -- `GetFileType` is `FILE_TYPE_DISK`
  pub is_disk : B.File → Bool
  -- `GetFileInformationByHandleEx` gives a `FILE_REMOTE_PROTOCOL_INFO`
  pub is_remote : B.File → Bool
  -- `GetFinalPathNameByHandleW` into a buffer of 32768: its result, and the buffer
  pub final_name : B.File → ℕ × List ℕ
  -- `String::from_utf16`
  pub from_utf16 : List ℕ → Option (List ℕ)
  -- `GetDriveTypeW` is `DRIVE_FIXED`
  pub is_fixed : List ℕ → Bool

abbrev pub is_alphabetic : ℕ → Bool
is_alphabetic c = leb b'A' c && leb c b'Z' || leb b'a' c && leb c b'z'

abbrev pub contains : ℕ → List ℕ → Bool
contains c [] = false
contains c (x ∷ xs) = x == c || contains c xs

abbrev backslash : ℕ
backslash = 92

-- True where the test on the path's bytes reports `UnsupportedProfile`; positions are in bounds
-- where they are read.
unfoldable pub bad_path : List ℕ → Bool
bad_path b =
    ltb (length b) 3
    || not (is_alphabetic (get_or b 0 0))
    || get_or b 1 0 != b':'
    || get_or b 2 0 != backslash
    || contains b':' (drop 2 b)

abbrev pub starts_with : List ℕ → List ℕ → Bool
starts_with [] s = true
starts_with (p ∷ ps) [] = false
starts_with (p ∷ ps) (x ∷ s) = p == x && starts_with ps s

-- The same for the name that the handle resolves to, which begins with `\\?\`.
unfoldable pub bad_name : List ℕ → Bool
bad_name b =
    not (starts_with (backslash ∷ backslash ∷ b'?' ∷ backslash ∷ []) b)
    || ltb (length b) 7
    || not (is_alphabetic (get_or b 4 0))
    || get_or b 5 0 != b':'
    || get_or b 6 0 != backslash

module _ {B : Backend} (F : FileSystem B) where
  abbrev pub image_of : B.File → FileMeta → AccessMode → Image B
  image_of file meta mode = record { file = file; len = meta.len; mode = mode }

  unfoldable pub open_unix : List ℕ → AccessMode → Result (Image B)
  open_unix path mode = do
    let options : OpenOptions = record {
      read = true;
      write = is_read_write mode;
      sharing = share_read;
      custom_flags = no_follow ∷ nonblock ∷ cloexec ∷ [];
    }
    file ← ok_or (F.open_file options path) backend_io
    meta ← ok_or (F.metadata file) backend_io
    reject_if (not meta.is_file) unsupported_profile
    reject_if (not (F.flock (is_read_write mode) file)) backend_io
    ok (image_of file meta mode)

  abbrev pub windows_options : AccessMode → OpenOptions
  windows_options mode = record {
    read = true;
    write = is_read_write mode;
    sharing = if is_read_write mode then share_none else share_read;
    custom_flags = open_reparse_point ∷ (if is_read_write mode then write_through ∷ [] else []);
  }

  -- The checks of the opened handle: a local file on a fixed drive.
  unfoldable pub check_handle : B.File → Result (Unit {0})
  check_handle file = do
    reject_if (not (F.is_disk file)) unsupported_profile
    reject_if (F.is_remote file) unsupported_profile
    let n = (F.final_name file).0
    let name = (F.final_name file).1
    reject_if (n == 0 || leb (length name) n) backend_io
    s ← ok_or (F.from_utf16 (take n name)) unsupported_profile
    reject_if (bad_name s) unsupported_profile
    let root = get_or name 4 0 ∷ b':' ∷ backslash ∷ 0 ∷ []
    reject_if (not (F.is_fixed root)) unsupported_profile

  -- `path` is none where it is no UTF-8.
  unfoldable pub open_windows : Option (List ℕ) → AccessMode → Result (Image B)
  open_windows path mode = do
    s ← ok_or path unsupported_profile
    reject_if (bad_path s) unsupported_profile
    file ← ok_or (F.open_file (windows_options mode) s) backend_io
    meta ← ok_or (F.metadata file) backend_io
    reject_if (not meta.is_file) unsupported_profile
    reject_if meta.is_reparse_point unsupported_profile
    check_handle file
    ok (image_of file meta mode)

-- No byte of the list is the given one.
abbrev pub Lacks : ℕ → List ℕ → Type 0
Lacks c [] = Unit
Lacks c (x ∷ xs) = (x ≢ c) × Lacks c xs

abbrev pub IsLetter : ℕ → Type 0
IsLetter c = is_alphabetic c ≡ true

contains-Lacks : (c : ℕ) (xs : List ℕ) → contains c xs ≡ false → Lacks c xs
contains-Lacks c [] e = tt
contains-Lacks c (x ∷ xs) e = ground (arith, contains-Lacks c xs)

Lacks-contains : (c : ℕ) (xs : List ℕ) → Lacks c xs → contains c xs ≡ false
Lacks-contains c [] l = refl
Lacks-contains c (x ∷ xs) l = ground (arith, Lacks-contains c xs)

-- The test on a path's bytes accepts exactly a letter, a colon and a backslash, with no further
-- colon after them.
pub bad_path_iff :
    (path : List ℕ)
    → (bad_path path ≡ false) ↔ (
        (letter : ℕ) × (rest : List ℕ) × (path ≡ letter ∷ b':' ∷ 92 ∷ rest)
        × IsLetter letter
        × Lacks b':' rest)
unfolding bad_path
bad_path_iff [] = (λ e. absurd (ground arith), λ p. absurd (cc (p.2)))
bad_path_iff (c ∷ []) = (λ e. absurd (ground arith), λ p. absurd (cc (p.2)))
bad_path_iff (c ∷ d ∷ []) = (λ e. absurd (ground arith), λ p. absurd (cc (p.2)))
bad_path_iff (c ∷ d ∷ e ∷ rest) = (
  λ h. (c, rest, ground arith, ground arith, contains-Lacks b':' rest (ground arith)),
  λ p. ground (arith, p.2, p.3, Lacks-contains b':' p.1 p.4),
)

module _ {B : Backend} (F : FileSystem B) where
  -- What is known of an image that the Windows build has opened.
  pub record IsLocal (path : Option (List ℕ)) (mode : AccessMode) (im : Image B) : Type 0 where
    pub text : List ℕ
    pub valid : path ≡ some text
    pub absolute : bad_path text ≡ false
    pub opened : F.open_file (windows_options F mode) text ≡ some im.file
    pub meta : FileMeta
    pub described : F.metadata im.file ≡ some meta
    pub regular : meta.is_file ≡ true
    pub no_reparse : meta.is_reparse_point ≡ false
    pub sized : im.len ≡ meta.len
    pub same_mode : im.mode ≡ mode
    pub disk : F.is_disk im.file ≡ true
    pub local : F.is_remote im.file ≡ false
    pub fixed : F.is_fixed (get_or (F.final_name im.file).1 4 0 ∷ b':' ∷ 92 ∷ 0 ∷ []) ≡ true

  check_handle_lem :
      (file : B.File)
      → check_handle F file ≡ ok tt
      → (F.is_disk file ≡ true)
        × (F.is_remote file ≡ false)
        × (F.is_fixed (get_or (F.final_name file).1 4 0 ∷ b':' ∷ 92 ∷ 0 ∷ []) ≡ true)
  unfolding check_handle
  check_handle_lem file e = ground arith

  -- An image that the Windows build opens is a regular file, no reparse point, on a fixed drive
  -- that is not remote, opened once at an absolute drive path under the options of its mode, with
  -- the length that its handle reports.
  pub open_windows-IsLocal :
      (path : Option (List ℕ)) (mode : AccessMode) (im : Image B)
      → open_windows F path mode ≡ ok im
      → IsLocal path mode im
  unfolding open_windows
  open_windows-IsLocal none mode im e = absurd (cc)
  open_windows-IsLocal (some s) mode im e =
      let good = reject_if-ok (bad_path s) unsupported_profile _ e in
      let file = >>=-ok (ok_or (F.open_file (windows_options F mode) s) backend_io) _ good.1 in
      let meta = >>=-ok (ok_or (F.metadata file.0) backend_io) _ file.2 in
      let regular = reject_if-ok (not meta.0.is_file) unsupported_profile _ meta.2 in
      let plain = reject_if-ok meta.0.is_reparse_point unsupported_profile _ regular.1 in
      let checked = >>=-ok (check_handle F file.0) _ plain.1 in
      let handle = check_handle_lem file.0 checked.1 in
      let same : image_of F file.0 meta.0 mode ≡ im = cc (checked.2) in
      rw (← same) (record {
        text = s;
        valid = refl;
        absolute = good.0;
        opened = ground (arith, file.1);
        meta = meta.0;
        described = ground (arith, meta.1);
        regular = ground (arith, regular.0);
        no_reparse = plain.0;
        sized = refl;
        same_mode = refl;
        disk = handle.0;
        local = handle.1;
        fixed = handle.2;
      })
