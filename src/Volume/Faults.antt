-- ===== src/Volume/Faults.antt =====
-- The sticky fault of src/volume.rs: when it is set, and what it stops.
use winluks.Base.{ℕ, ◌≡◌, ◌≢◌, ◌⊎◌, true, false, List, arith}
use winluks.Error.{writeback_failed, ok, err, panic, unfinished}
use winluks.Image.Os.{Backend}
use winluks.Image.{AccessMode}
use winluks.Crypto.Primitives.{Libraries}
use winluks.Volume.{
  UnlockedVolume, read_at, read_locked, read_sectors, write_at, write_locked, store,
}
use winluks.Volume.{flush, flush_locked}

-- The session does no more I/O: it is faulted, or a panic has poisoned its lock.
pub record IsBroken {B : Backend} (v : UnlockedVolume B) : Type 0 where
  pub broken : (v.faulted ≡ true) ⊎ (v.poisoned ≡ true)

module _ (B : Backend) (P : Libraries) (v : UnlockedVolume B) (b : IsBroken v) where
  -- A faulted or poisoned volume answers each read with a writeback failure, is faulted
  -- afterwards, and keeps its image as it was.
  pub read_at_broken :
      (offset len : ℕ)
      → ((read_at B P v offset len).0 ≡ err writeback_failed)
        × ((read_at B P v offset len).1.faulted ≡ true)
        × ((read_at B P v offset len).1.image ≡ v.image)
  unfolding read_at read_locked
  read_at_broken offset len = ground (arith, b.broken)

  -- A faulted or poisoned volume acknowledges no write, stays faulted or poisoned, and keeps its
  -- image as it was.
  pub write_at-IsBroken :
      (offset : ℕ) (plaintext : List ℕ)
      → ((write_at B P v offset plaintext).0 ≢ ok tt)
        × IsBroken (write_at B P v offset plaintext).1
        × ((write_at B P v offset plaintext).1.image ≡ v.image)
  unfolding write_at write_locked
  write_at-IsBroken offset plaintext = ground (arith, b.broken)

  -- A faulted or poisoned volume answers a flush with a writeback failure, is faulted afterwards,
  -- and keeps its image as it was.
  pub flush_broken :
      ((flush B v).0 ≡ err writeback_failed)
      × ((flush B v).1.faulted ≡ true)
      × ((flush B v).1.image ≡ v.image)
  unfolding flush flush_locked
  flush_broken = ground (arith, b.broken)

module _ (B : Backend) (P : Libraries) (v : UnlockedVolume B) where
  store_unacknowledged :
      (target : ℕ) (encrypted : List ℕ)
      → (store B P v target encrypted).0 ≢ ok tt
      → ((store B P v target encrypted).1.faulted ≡ true)
        ⊎ ((store B P v target encrypted).0 ≡ panic)
        ⊎ ((store B P v target encrypted).0 ≡ unfinished)
  unfolding store
  store_unacknowledged target encrypted e = ground arith

  store-poisoned :
      (target : ℕ) (encrypted : List ℕ) → (store B P v target encrypted).1.poisoned ≡ v.poisoned
  unfolding store
  store-poisoned target encrypted = ground arith

  store_acknowledged :
      (target : ℕ) (encrypted : List ℕ)
      → (store B P v target encrypted).0 ≡ ok tt
      → (store B P v target encrypted).1.faulted ≡ v.faulted
  unfolding store
  store_acknowledged target encrypted e = ground arith

  -- A write that is neither acknowledged nor out of fuel has left the image as it was, or leaves
  -- the volume faulted or its lock poisoned.
  pub write_at_unacknowledged :
      (offset : ℕ) (plaintext : List ℕ)
      → (write_at B P v offset plaintext).0 ≢ ok tt
      → (write_at B P v offset plaintext).0 ≢ unfinished
      → ((write_at B P v offset plaintext).1.image ≡ v.image)
        ⊎ ((write_at B P v offset plaintext).1.faulted ≡ true)
        ⊎ ((write_at B P v offset plaintext).1.poisoned ≡ true)
  unfolding write_at write_locked
  write_at_unacknowledged offset plaintext e u = grind (arith, store_unacknowledged, store-poisoned)

  -- A write is acknowledged only in a read-write session that is neither faulted nor poisoned, and
  -- leaves it so.
  pub write_at_acknowledged :
      (offset : ℕ) (plaintext : List ℕ)
      → (write_at B P v offset plaintext).0 ≡ ok tt
      → (v.image.mode ≡ AccessMode.read_write)
        × (v.faulted ≡ false)
        × (v.poisoned ≡ false)
        × ((write_at B P v offset plaintext).1.faulted ≡ false)
        × ((write_at B P v offset plaintext).1.poisoned ≡ false)
  unfolding write_at write_locked
  write_at_acknowledged offset plaintext e = grind (arith, store_acknowledged, store-poisoned)

  -- A read-only session stays as it was, whatever its reads report.
  pub read_at_read_only :
      (offset len : ℕ)
      → v.image.mode ≡ AccessMode.read_only
      → v.poisoned ≡ false
      → (read_at B P v offset len).1.faulted ≡ v.faulted
  unfolding read_at read_locked read_sectors
  read_at_read_only offset len m p = ground arith
