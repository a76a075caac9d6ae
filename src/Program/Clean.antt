-- ===== src/Program/Clean.antt =====
-- The whole of src/main.rs: what a session that reports success has done, from the image on.
use winluks.Base.{ℕ, ◌≡◌, false, List, some, length}
use winluks.Base.Contents.{Contents, slice}
use winluks.Error.{ok}
use winluks.Image.Os.{Backend, IsFile, IsPatient}
use winluks.Image.{Image}
use winluks.Image.Open.{open_windows}
use winluks.Crypto.{not_key_size}
use winluks.Crypto.Primitives.{IsCipher}
use winluks.Metadata.{Metadata}
use winluks.Metadata.Header
use winluks.Probe.{Filesystem}
use winluks.Probe.Btrfs.{btrfs_at}
use winluks.Volume.{UnlockedVolume, ValidatedVolume, validate}
use winluks.Volume.Payload.{IsPlaced}
use winluks.Volume.Plain.{Decrypts, plain_disk}
use winluks.Volume.Unlock.{unlock}
use winluks.Adapter
use winluks.Adapter.{new_adapter}
use winluks.Adapter.Windows.Consumer
use winluks.Adapter.Windows.Serve.{Server, first_state}
use winluks.Adapter.Windows.Driven.{IsDriver}
use winluks.Adapter.Windows.Clean.{IsClean}
use winluks.Program.{Machine, OpenCommand, mode_of, Served}

module _ (B : Backend) {W : Type 0} (M : Machine B W) (L : IsFile B) (patient : IsPatient B)
    (C : IsCipher M.libraries) (D : IsDriver B M.libraries M.shim)
    (decrypts : (key : List ℕ) → not_key_size (length key) ≡ false → Decrypts M.libraries key) where
  -- The plaintext that an unlocked volume begins with.
  abbrev pub first_disk :
      (v : UnlockedVolume B) → not_key_size (length v.key.bytes) ≡ false → Contents
  first_disk v keyed = plain_disk L M.libraries C v (decrypts v.key.bytes keyed)

  -- A session of `open` that was served to its clean end.
  pub record Succeeded (c : OpenCommand) (x : Served B M) : Type 0 where
    pub image : Image B
    pub opened : open_windows M.files c.image (mode_of c.read_write) ≡ ok image
    pub password : List ℕ
    pub entered : M.password ≡ some password
    pub unlocked : UnlockedVolume B
    -- from the image as the reading of its metadata left it
    pub unlocking :
        unlock M.codecs M.libraries B M.allocated M.locked
          (Header.read M.codecs M.libraries B image).1
          c.keyslot
          password
        ≡ ok unlocked
    pub keyed : not_key_size (length unlocked.key.bytes) ≡ false
    pub valid : ValidatedVolume B
    pub validation : (validate B M.libraries M.crc32c unlocked c.filesystem).0 ≡ ok valid
    pub server : Server B M.shim
    pub served : x.1 ≡ some server
    pub filesystem : c.filesystem ≡ Filesystem.btrfs
    pub mode : valid.volume.image.mode ≡ mode_of c.read_write
    pub checked :
        btrfs_at M.crc32c (slice (first_disk unlocked keyed) 65536 4096) unlocked.len 65536 ≡ ok tt
    pub clean :
        IsClean B M.libraries M.shim D L
          (first_state B M.shim valid M.world)
          (first_disk unlocked keyed)
          server

  module _ (fuel : ℕ) (c : OpenCommand) where
    -- The image that was opened, and what the reading of its metadata leaves of it.
    record Source : Type 0 where
      image : Image B
      opened : open_windows M.files c.image (mode_of c.read_write) ≡ ok image

    abbrev after_read : Source → Image B
    after_read s = (Header.read M.codecs M.libraries B s.image).1

    -- What is known of a volume from its unlocking on.
    record IsFresh (v : UnlockedVolume B) : Type 0 where
      source : Source
      password : List ℕ
      entered : M.password ≡ some password
      unlocking :
          unlock M.codecs M.libraries B M.allocated M.locked (after_read source) c.keyslot password
          ≡ ok v
      placed : IsPlaced v
      sound : v.poisoned ≡ false
      same_mode : v.image.mode ≡ mode_of c.read_write
      keyed : not_key_size (length v.key.bytes) ≡ false
