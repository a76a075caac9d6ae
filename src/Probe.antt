-- ===== src/Probe.antt =====
-- src/probe.rs: which filesystems may be published. The checksum is a parameter.
pub mod Fields
pub mod Ext4
pub mod Btrfs
pub mod Mirrors
pub mod Keeps
use winluks.Base.{
  ℕ, ◌+◌, Bool, true, false, List, [], ◌∷◌, not, ltb, ◌||◌, if◌then◌else◌, take, drop,
}
use winluks.Error.{fs_recovery_required, Result, Outcome, ok, err, panic, unfinished}
use Fields.{same_bytes}
use Ext4
use Btrfs.{btrfs_at}

pub data Filesystem : Type 0 where
  btrfs ext4 : Filesystem

abbrev lift : {A : Type 0} → Result A → Outcome A
lift (ok a) = ok a
lift (err e) = err e

-- Two copies differ in more than their checksum and their own address.
abbrev pub differ : List ℕ → List ℕ → Bool
differ primary mirror =
    not (same_bytes (take 16 (drop 32 primary)) (take 16 (drop 32 mirror)))
    || not (same_bytes (drop 56 primary) (drop 56 mirror))

-- The copies after the first.
abbrev pub mirrors : List ℕ
mirrors = 0x4000000 ∷ 0x4000000000 ∷ []

-- `check`, over a reader that may change its state.
module _ {S : Type 0} (crc32c : List ℕ → ℕ) (read : S → ℕ → ℕ → Outcome (List ℕ) × S)
    (len : ℕ) where
  -- What follows a read, if it gave bytes.
  abbrev pub after_read :
      Outcome (List ℕ) × S → (List ℕ → S → Outcome (Unit {0}) × S) → Outcome (Unit {0}) × S
  after_read (ok bytes, s) next = next bytes s
  after_read (err e, s) next = (err e, s)
  after_read (panic, s) next = (panic, s)
  after_read (unfinished, s) next = (unfinished, s)

  -- What follows a check that passed.
  abbrev pub after_check :
      Result (Unit {0}) → S → (S → Outcome (Unit {0}) × S) → Outcome (Unit {0}) × S
  after_check (ok _) s next = next s
  after_check (err e) s next = (err e, s)

  unfoldable pub mirror_loop : List ℕ → List ℕ → S → Outcome (Unit {0}) × S
  mirror_loop primary [] s = (ok tt, s)
  mirror_loop primary (offset ∷ offsets) s = elim (ltb len (offset + 4096)) [
    | true ↦ (ok tt, s)
    | false ↦ after_read (read s offset 4096) (λ mirror t.
        after_check (btrfs_at crc32c mirror len offset) t (λ u. elim (differ primary mirror) [
          | true ↦ (err fs_recovery_required, u)
          | false ↦ mirror_loop primary offsets u
        ]))
  ]

  unfoldable pub check : Filesystem → S → Outcome (Unit {0}) × S
  check Filesystem.ext4 s =
      after_read (read s 1024 1024) (λ block t. (lift (Ext4.ext4 crc32c block len), t))
  check Filesystem.btrfs s =
      after_read (read s 65536 4096) (λ primary t.
        after_check (btrfs_at crc32c primary len 65536) t (mirror_loop primary mirrors))
