-- ===== src/Probe/Ext4.antt =====
-- `ext4` of src/probe.rs: the superblock profile E0, in the order of its checks.
use Prim.Native.Nat.{bit_and, bit_or}
use winluks.Base.{ℕ, ◌+◌, ◌-◌, ◌*◌, ◌/◌, ◌^◌, Bool, List, not, ltb, ◌==◌, ◌!=◌, ◌||◌, ◌&&◌}
use winluks.Base.{if◌then◌else◌, length, take}
use winluks.Base.Words.{checked_mul, is_multiple_of}
use winluks.Error.{Result, ◌>>=◌, ◌>>◌, reject_if, ok_or}
use winluks.Error.{fs_invalid, fs_type_mismatch, fs_unsupported_feature, fs_recovery_required}
use winluks.Probe.Fields.{byte, u16le, u32le, has_nonzero, has_bits, not32}

abbrev allowed_compat : ℕ
allowed_compat = 0x4 + 0x8 + 0x10 + 0x20

abbrev allowed_incompat : ℕ
allowed_incompat = 0x2 + 0x40 + 0x80 + 0x200 + 0x2000

abbrev allowed_ro : ℕ
allowed_ro = 0x1 + 0x2 + 0x8 + 0x20 + 0x40 + 0x400

-- Rounded up, `n.div_ceil(d)`.
abbrev pub div_ceil : ℕ → ℕ → ℕ
div_ceil n d = (n + d - 1) / d

-- A count of 64 bits, of which the high half exists only with the feature.
unfoldable pub wide : List ℕ → Bool → ℕ → ℕ → ℕ
wide s has64 low high = bit_or (u32le s low) (if has64 then u32le s high * 2 ^ 32 else 0)

abbrev pub has_64bit : List ℕ → Bool
has_64bit s = has_bits (u32le s 0x60) 0x80

module _ (crc32c : List ℕ → ℕ) where
  -- Signature, checksum, and no sign of a crash.
  unfoldable pub ext4_state : List ℕ → Result (Unit {0})
  ext4_state s = do
    reject_if (length s != 1024) fs_invalid
    reject_if (u16le s 0x38 != 0xef53) fs_type_mismatch
    reject_if (byte s 0x175 != 1) fs_unsupported_feature
    reject_if (not32 (crc32c (take 0x3fc s)) != u32le s 0x3fc) fs_invalid
    reject_if
        (u16le s 0x3a != 1
          || has_bits (u32le s 0x60) 0x4
          || has_bits (u32le s 0x64) 0x10000
          || u32le s 0xe8 != 0
          || u32le s 0x280 != 0)
        fs_recovery_required

-- Features, revision and journal.
unfoldable pub ext4_features : List ℕ → Result (Unit {0})
ext4_features s = do
  let compat = u32le s 0x5c
  let incompat = u32le s 0x60
  let ro = u32le s 0x64
  reject_if
      (has_bits compat (not32 allowed_compat)
        || has_bits incompat (not32 allowed_incompat)
        || has_bits ro (not32 allowed_ro)
        || bit_and compat 4 == 0
        || bit_and incompat 0x42 != 0x42
        || bit_and ro 0x400 == 0)
      fs_unsupported_feature
  reject_if (u32le s 0x4c != 1 || u16le s 0x58 != 256 || u32le s 0x18 != 2) fs_unsupported_feature
  reject_if (u32le s 0x1c != 2 || u32le s 0x14 != 0) fs_invalid
  reject_if (u32le s 0xe0 == 0 || u32le s 0xe4 != 0 || has_nonzero s 0xd0 0xe0)
      fs_unsupported_feature
  reject_if
      ((has_64bit s && u16le s 0xfe != 64)
        || (not (has_64bit s) && (u32le s 0x150 != 0 || u32le s 0x154 != 0 || u32le s 0x158 != 0)))
      fs_invalid

-- Sizes of the block groups.
unfoldable pub ext4_groups : List ℕ → ℕ → ℕ → Result (Unit {0})
ext4_groups s blocks length = do
  bytes ← ok_or (checked_mul blocks 4096) fs_invalid
  let bpg = u32le s 0x20
  let ipg = u32le s 0x28
  reject_if
      (ltb length bytes
        || blocks == 0
        || bpg == 0
        || ltb 32768 bpg
        || u32le s 0x24 != bpg
        || ipg == 0
        || ltb 32768 ipg
        || not (is_multiple_of ipg 16))
      fs_invalid
  reject_if (ltb bpg (div_ceil (ipg * 256) 4096 + 2)) fs_invalid

-- `blocks.div_ceil(bpg).checked_mul(ipg)` is asked for only if there are inodes.
unfoldable pub ext4_inodes : List ℕ → ℕ → Result (Unit {0})
ext4_inodes s blocks = do
  let inodes = u32le s 0
  reject_if (inodes == 0) fs_invalid
  total ← ok_or (checked_mul (div_ceil blocks (u32le s 0x20)) (u32le s 0x28)) fs_invalid
  reject_if
      (inodes != total
        || ltb inodes (u32le s 0xe0)
        || ltb (u32le s 0x54) 11
        || ltb inodes (u32le s 0x54))
      fs_invalid
  reject_if (ltb inodes (u32le s 0x10)) fs_invalid

-- Free and reserved blocks.
unfoldable pub ext4_counts : List ℕ → ℕ → Result (Unit {0})
ext4_counts s blocks = do
  reject_if (ltb blocks (wide s (has_64bit s) 0xc 0x158)) fs_invalid
  reject_if (ltb blocks (wide s (has_64bit s) 8 0x154)) fs_invalid

unfoldable pub ext4 : (List ℕ → ℕ) → List ℕ → ℕ → Result (Unit {0})
ext4 crc32c s length = do
  ext4_state crc32c s
  ext4_features s
  let blocks = wide s (has_64bit s) 4 0x150
  ext4_groups s blocks length
  ext4_inodes s blocks
  ext4_counts s blocks
