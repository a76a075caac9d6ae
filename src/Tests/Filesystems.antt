-- ===== src/Tests/Filesystems.antt =====
-- A Btrfs volume with two copies of its superblock, accepted by the probe and by the volume.
use winluks.Base.{
  ℕ, ◌+◌, ◌-◌, ◌*◌, ◌≤◌, ◌≡◌, refl, ap, true, false, List, [], ◌∷◌, replicate, some, ltb, ◌==◌,
  if◌then◌else◌, ◌||◌, arith,
}
use winluks.Base.Contents.{Contents, slice}
use winluks.Error.{Outcome, ok}
use winluks.Image.{AccessMode, read_exact_at, read_loop}
use winluks.Image.Memory.{memory, memory-IsFile}
use winluks.Crypto.{crypt_sectors, crypt_loop}
use winluks.Probe.{Filesystem, check, mirror_loop}
use winluks.Probe.Fields.{u16le, u32le, u64le, has_nonzero, same_bytes}
use winluks.Probe.Btrfs.{btrfs_at, btrfs_identity, btrfs_features, btrfs_layout}
use winluks.Probe.Mirrors.{IsCopy, check-copies}
use winluks.Volume.{
  UnlockedVolume, ValidatedVolume, validate, read_at, read_locked, read_sectors, out_of_range,
}
use winluks.Volume.Payload.{IsPlaced, Shows}
use winluks.Volume.Validate.{validate-copies}
use winluks.Tests.World.{libraries, slice-shift}

-- The bytes other than zero that the copies share, by their positions.
abbrev shared : List (ℕ × ℕ)
shared =
    (0x40, b'_')
    ∷ (0x41, b'B')
    ∷ (0x42, b'H')
    ∷ (0x43, b'R')
    ∷ (0x44, b'f')
    ∷ (0x45, b'S')
    ∷ (0x46, b'_')
    ∷ (0x47, b'M')
    ∷ (0x51, 0x10)
    ∷ (0x59, 0x10)
    ∷ (0x73, 1)
    ∷ (0x79, 1)
    ∷ (0x88, 1)
    ∷ (0x91, 0x10)
    ∷ (0x95, 0x40)
    ∷ []

abbrev at : List (ℕ × ℕ) → ℕ → ℕ
at [] p = 0
at ((q, b) ∷ bytes) p = if p == q then b else at bytes p

-- The first copy at 64 KiB, the second at 64 MiB, each with its own address.
abbrev pub btrfs_disk : Contents
btrfs_disk i =
    if ltb i 65536 || ltb 0x4000fff i
    then 0
    else if ltb i 69632
    then at ((0x32, 1) ∷ shared) (i - 65536)
    else if ltb i 0x4000000
    then 0
    else at ((0x33, 4) ∷ shared) (i - 0x4000000)

abbrev pub zero_sum : List ℕ → ℕ
zero_sum bytes = 0

abbrev plain_read : Unit {0} → ℕ → ℕ → Outcome (List ℕ) × Unit {0}
plain_read s o n = (ok (slice btrfs_disk o n), s)

btrfs_accepted : (check zero_sum plain_read 0x4001000 Filesystem.btrfs tt).0 ≡ ok tt
unfolding check mirror_loop btrfs_at btrfs_identity btrfs_features btrfs_layout u16le u32le u64le
    has_nonzero same_bytes slice
btrfs_accepted = refl

check-copies_example :
    (btrfs_at zero_sum (slice btrfs_disk 65536 4096) 0x4001000 65536 ≡ ok tt)
    × (0x4000000 + 4096 ≤ 0x4001000 → IsCopy zero_sum 0x4001000 btrfs_disk 0x4000000)
    × (0x4000000000 + 4096 ≤ 0x4001000 → IsCopy zero_sum 0x4001000 btrfs_disk 0x4000000000)
check-copies_example =
    check-copies zero_sum plain_read 0x4001000 btrfs_disk (λ s. Unit {0})
      (λ s o n bytes q e. ground arith) (λ s o n q. tt) tt tt btrfs_accepted

-- The same filesystem behind the header of an image.
abbrev btrfs_bytes : Contents
btrfs_bytes i = btrfs_disk (i - 2048)

abbrev btrfs_shown : Contents
btrfs_shown i = btrfs_bytes (2048 + i)

abbrev btrfs_volume : UnlockedVolume memory
btrfs_volume = record {
  image = record {
    file = record { bytes = btrfs_bytes; size = 0x4001800 };
    len = 0x4001800;
    mode = AccessMode.read_only;
  };
  offset = 2048;
  len = 0x4001000;
  key = record { bytes = replicate 64 1; locked = true };
  poisoned = false;
  faulted = false;
}

btrfs_volume-IsPlaced : IsPlaced btrfs_volume
btrfs_volume-IsPlaced = record { whole = refl; inside = omega arith; addressable = omega arith }

btrfs_volume-Shows : Shows memory-IsFile libraries btrfs_volume btrfs_shown
unfolding memory-IsFile
btrfs_volume-Shows = record {
  sectors = λ j within. ap some (slice-shift btrfs_bytes (512 * j) 512);
}

abbrev validated : ValidatedVolume memory
validated = record { volume = btrfs_volume; filesystem = Filesystem.btrfs }

validate-btrfs : (validate memory libraries zero_sum btrfs_volume Filesystem.btrfs).0 ≡ ok validated
unfolding validate check mirror_loop btrfs_at btrfs_identity btrfs_features btrfs_layout u16le u32le
    u64le has_nonzero same_bytes slice read_at read_locked read_sectors read_exact_at read_loop
    crypt_sectors crypt_loop out_of_range
validate-btrfs = refl

validate-copies_example :
    (btrfs_at zero_sum (slice btrfs_shown 65536 4096) 0x4001000 65536 ≡ ok tt)
    × (0x4000000 + 4096 ≤ 0x4001000 → IsCopy zero_sum 0x4001000 btrfs_shown 0x4000000)
    × (0x4000000000 + 4096 ≤ 0x4001000 → IsCopy zero_sum 0x4001000 btrfs_shown 0x4000000000)
validate-copies_example =
    validate-copies memory memory-IsFile libraries zero_sum btrfs_volume btrfs_shown validated
      btrfs_volume-IsPlaced btrfs_volume-Shows validate-btrfs
