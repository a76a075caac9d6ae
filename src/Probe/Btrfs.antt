-- ===== src/Probe/Btrfs.antt =====
-- `btrfs_at` of src/probe.rs: the superblock profile B0, in the order of its checks.
use winluks.Base.{ℕ, ◌+◌, Bool, List, [], ◌∷◌, not, ltb, ◌==◌, ◌!=◌, ◌||◌, length, take, drop}
use winluks.Base.Words.{is_multiple_of}
use winluks.Error.{Result, ◌>>◌, reject_if}
use winluks.Error.{fs_invalid, fs_type_mismatch, fs_unsupported_feature, fs_recovery_required}
use winluks.Probe.Fields.{byte, u16le, u32le, u64le, has_nonzero, has_bits, not64, same_bytes}

-- `_BHRfS_M`
abbrev pub btrfs_magic : List ℕ
btrfs_magic = b'_' ∷ b'B' ∷ b'H' ∷ b'R' ∷ b'f' ∷ b'S' ∷ b'_' ∷ b'M' ∷ []

abbrev pub allowed : ℕ
allowed = 1 + 2 + 8 + 16 + 32 + 64 + 256 + 512

-- A root that is no logical address.
abbrev bad_root : ℕ → Bool
bad_root root = root == 0 || not (is_multiple_of root 4096)

-- Signature, checksum and place.
unfoldable pub btrfs_identity : (List ℕ → ℕ) → List ℕ → ℕ → ℕ → Result (Unit {0})
btrfs_identity crc32c s len physical_offset = do
  reject_if (length s != 4096) fs_invalid
  reject_if (not (same_bytes (take 8 (drop 0x40 s)) btrfs_magic)) fs_type_mismatch
  reject_if (u16le s 0xc4 != 0) fs_unsupported_feature
  reject_if (crc32c (drop 32 s) != u32le s 0 || has_nonzero s 4 32) fs_invalid
  reject_if
      (u64le s 0x30 != physical_offset
        || ltb len (u64le s 0x70)
        || u64le s 0x70 == 0
        || ltb (u64le s 0x70) (u64le s 0x78))
      fs_invalid

-- One device, no log tree, and no features beyond the profile.
unfoldable pub btrfs_features : List ℕ → Result (Unit {0})
btrfs_features s = do
  reject_if (u64le s 0x88 != 1) fs_unsupported_feature
  reject_if (u64le s 0x60 != 0) fs_recovery_required
  reject_if (has_bits (u64le s 0x38) 4) fs_recovery_required
  reject_if (has_bits (u64le s 0x38) (not64 1)) fs_unsupported_feature
  reject_if (u64le s 0xac != 0 || u64le s 0xb4 != 0 || has_bits (u64le s 0xbc) (not64 allowed))
      fs_unsupported_feature

unfoldable pub btrfs_layout : List ℕ → Result (Unit {0})
btrfs_layout s = do
  let node = u32le s 0x94
  reject_if
      (u32le s 0x90 != 4096
        || not (node == 4096 || node == 8192 || node == 16384 || node == 32768 || node == 65536))
      fs_unsupported_feature
  reject_if (bad_root (u64le s 0x50)) fs_invalid
  reject_if (bad_root (u64le s 0x58)) fs_invalid
  reject_if
      (ltb 2048 (u32le s 0xa0) || ltb 8 (byte s 0xc6) || ltb 8 (byte s 0xc7) || ltb 8 (byte s 0xc8))
      fs_invalid

unfoldable pub btrfs_at : (List ℕ → ℕ) → List ℕ → ℕ → ℕ → Result (Unit {0})
btrfs_at crc32c s len physical_offset = do
  btrfs_identity crc32c s len physical_offset
  btrfs_features s
  btrfs_layout s

-- `btrfs`: the first copy
unfoldable pub btrfs : (List ℕ → ℕ) → List ℕ → ℕ → Result (Unit {0})
btrfs crc32c s len = btrfs_at crc32c s len 65536
