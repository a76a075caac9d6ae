-- ===== src/Volume/Validate.antt =====
-- What a volume that `validate` of src/volume.rs accepts holds.
use winluks.Base.{ℕ, ◌+◌, ◌≤◌, ◌≡◌, List, arith}
use winluks.Base.Contents.{Contents, slice}
use winluks.Error.{ok}
use winluks.Image.Os.{Backend, IsFile}
use winluks.Crypto.Primitives.{Libraries}
use winluks.Probe
use winluks.Probe.{Filesystem}
use winluks.Probe.Btrfs.{btrfs_at}
use winluks.Probe.Mirrors.{IsCopy, check-copies}
use winluks.Volume.{UnlockedVolume, ValidatedVolume, validate, read_at}
use winluks.Volume.Payload.{IsPlaced, Shows, IsPlaced-SameSession, Shows-same}
use winluks.Volume.Frame.{read_at-SameSession}
use winluks.Volume.Reads.{read_at-slice, read_at-contents}

module _ (B : Backend) (L : IsFile B) (P : Libraries) (crc32c : List ℕ → ℕ) (v : UnlockedVolume B)
    (disk : Contents) where
  record Sees (w : UnlockedVolume B) : Type 0 where
    placed : IsPlaced w
    shows : Shows L P w disk

  validate-check :
      (fs : Filesystem) (valid : ValidatedVolume B)
      → (validate B P crc32c v fs).0 ≡ ok valid
      → (Probe.check crc32c (read_at B P) v.len fs v).0 ≡ ok tt
  unfolding validate
  validate-check fs valid e = ground arith

  -- A volume that validates as Btrfs has a valid superblock at 64 KiB of the disk that it shows,
  -- and its further copies at 64 MiB and 256 GiB, where they lie inside the volume, are valid and
  -- agree with it. The payload lies in whole sectors inside the image, and the backend behaves as
  -- a file.
  pub validate-copies :
      (valid : ValidatedVolume B)
      → IsPlaced v
      → Shows L P v disk
      → (validate B P crc32c v Filesystem.btrfs).0 ≡ ok valid
      → (btrfs_at crc32c (slice disk 65536 4096) v.len 65536 ≡ ok tt)
        × (0x4000000 + 4096 ≤ v.len → IsCopy crc32c v.len disk 0x4000000)
        × (0x4000000000 + 4096 ≤ v.len → IsCopy crc32c v.len disk 0x4000000000)
  validate-copies valid placed shows e =
      check-copies crc32c (read_at B P) v.len disk Sees
        (λ w o n bytes s r. read_at-slice B L P w disk s.placed s.shows o n bytes r)
        (λ w o n s. record {
          placed = IsPlaced-SameSession B w _ (read_at-SameSession B P w o n) s.placed;
          shows =
              Shows-same B L P disk w _ (read_at-SameSession B P w o n)
                (read_at-contents B L P w o n) s.shows;
        })
        v (record { placed = placed; shows = shows }) (validate-check Filesystem.btrfs valid e)
