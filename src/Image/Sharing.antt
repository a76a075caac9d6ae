-- ===== src/Image/Sharing.antt =====
-- What an image that `Image::open_with_mode` of src/image.rs has opened on Windows keeps other
-- handles from: the share modes, as `CreateFileW` documents them.
use winluks.Base.{ℕ, ◌≡◌, Bool, true, false, ◌&&◌, ◌||◌, not, List, [], ◌∷◌, ◌⊎◌, some}
use winluks.Image.Os.{Backend}
use winluks.Image.{Image, AccessMode}
use winluks.Image.Open.{FileSystem, OpenOptions, Sharing, Flag}

-- What a handle asks for, and what it lets other handles of the file do.
pub record Access : Type 0 where
  pub reads : Bool
  pub writes : Bool
  pub lets_read : Bool
  pub lets_write : Bool

abbrev pub access_of : OpenOptions → Access
access_of o = record {
  reads = o.read;
  writes = o.write;
  lets_read = elim o.sharing [ Sharing.share_read ↦ true | Sharing.share_none ↦ false ];
  lets_write = false;
}

-- A handle is given beside another one if each lets the other do what it asks for.
abbrev lets : Access → Access → Bool
lets held other = (not other.reads || held.lets_read) && (not other.writes || held.lets_write)

abbrev pub compatible : Access → Access → Bool
compatible held other = lets held other && lets other held

abbrev pub Has : Flag → List Flag → Type 0
Has f [] = ⊥
Has f (g ∷ gs) = (g ≡ f) ⊎ Has f gs

module _ {B : Backend} (F : FileSystem B) where
  -- The handle of an image, against any other handle of the same file.
  pub record IsExclusive (path : List ℕ) (mode : AccessMode) (im : Image B) : Type 0 where
    pub options : OpenOptions
    pub opened : F.open_file options path ≡ some im.file
    pub readable : options.read ≡ true
    pub writable : options.write ≡ true → mode ≡ AccessMode.read_write
    pub unwritten :
        (other : Access) → compatible (access_of options) other ≡ true → other.writes ≡ false
    pub unread :
        mode ≡ AccessMode.read_write
        → (other : Access) → compatible (access_of options) other ≡ true
        → other.reads ≡ false
    pub unfollowed : Has Flag.open_reparse_point options.custom_flags
    pub written_through : mode ≡ AccessMode.read_write → Has Flag.write_through options.custom_flags
