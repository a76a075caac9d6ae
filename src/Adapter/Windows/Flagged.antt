-- ===== src/Adapter/Windows/Flagged.antt =====
-- In a session of src/adapter/windows.rs a poisoned lock never goes without the sticky fault.
use winluks.Base.{ℕ, ◌*◌, ◌≡◌, ◌≢◌, ◌⊎◌, true, false, List, arith}
use winluks.Error.{panic}
use winluks.Image.Os.{Backend}
use winluks.Crypto.Primitives.{Libraries}
use winluks.Volume
use winluks.Volume.{
  UnlockedVolume, read_at, read_locked, read_sectors, write_at, write_locked, store, flush_locked,
}
use winluks.Adapter
use winluks.Adapter.{BlockAdapter, inner}

pub record IsFlagged {B : Backend} (v : UnlockedVolume B) : Type 0 where
  pub flagged : (v.poisoned ≡ false) ⊎ (v.faulted ≡ true)

module _ (B : Backend) (P : Libraries) where
  read_sectors-poisoned :
      (v : UnlockedVolume B) (offset len start size place : ℕ)
      → (read_sectors B P v offset len start size place).1.poisoned ≡ v.poisoned
  unfolding read_sectors
  read_sectors-poisoned v offset len start size place = ground arith

  store-poisoned :
      (v : UnlockedVolume B) (target : ℕ) (encrypted : List ℕ)
      → (store B P v target encrypted).1.poisoned ≡ v.poisoned
  unfolding store
  store-poisoned v target encrypted = ground arith

  -- What does not panic keeps the flag.
  read_at-IsFlagged :
      (v : UnlockedVolume B) (offset len : ℕ)
      → IsFlagged v
      → (read_at B P v offset len).0 ≢ panic
      → IsFlagged (read_at B P v offset len).1
  unfolding read_at read_locked
  read_at-IsFlagged v offset len h n = grind (arith, read_sectors-poisoned)

  write_at-IsFlagged :
      (v : UnlockedVolume B) (offset : ℕ) (plaintext : List ℕ)
      → IsFlagged v
      → (write_at B P v offset plaintext).0 ≢ panic
      → IsFlagged (write_at B P v offset plaintext).1
  unfolding write_at write_locked
  write_at-IsFlagged v offset plaintext h n = grind (arith, store-poisoned)

  flush-IsFlagged :
      (v : UnlockedVolume B)
      → IsFlagged v
      → (Volume.flush B v).0 ≢ panic
      → IsFlagged (Volume.flush B v).1
  unfolding Volume.flush flush_locked
  flush-IsFlagged v h n = ground arith

  module _ (a : BlockAdapter B) (h : IsFlagged (inner B a)) where
    pub adapter_read-IsFlagged :
        (lba count : ℕ)
        → (Adapter.read B P a lba count).0 ≢ panic
        → IsFlagged (inner B (Adapter.read B P a lba count).1)
    unfolding Adapter.read
    adapter_read-IsFlagged lba count n =
        ground (arith, read_at-IsFlagged (inner B a) (lba * 512) (count * 512))

    pub adapter_write-IsFlagged :
        (lba : ℕ) (bytes : List ℕ)
        → (Adapter.write B P a lba bytes).0 ≢ panic
        → IsFlagged (inner B (Adapter.write B P a lba bytes).1)
    unfolding Adapter.write
    adapter_write-IsFlagged lba bytes n =
        ground (arith, write_at-IsFlagged (inner B a) (lba * 512) bytes)

    pub adapter_flush-IsFlagged :
        (lba count : ℕ)
        → (Adapter.flush B a lba count).0 ≢ panic
        → IsFlagged (inner B (Adapter.flush B a lba count).1)
    unfolding Adapter.flush
    adapter_flush-IsFlagged lba count n = ground (arith, flush-IsFlagged (inner B a))
