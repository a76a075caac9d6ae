-- ===== src/Adapter/Lost.antt =====
-- The error of a lost write comes with the sticky fault, and a faulted adapter of src/adapter.rs
-- acknowledges nothing.
use Prim.Native.Nat.{zero, suc}
use winluks.Base.{ℕ, ◌*◌, ◌≡◌, ◌≢◌, true, List, arith}
use winluks.Error.{ok, err, writeback_failed}
use winluks.Image.Os.{Backend}
use winluks.Image.{Image, read_exact_at, read_loop}
use winluks.Crypto.{crypt_sectors, crypt_loop}
use winluks.Crypto.Primitives.{Libraries, Direction}
use winluks.Volume
use winluks.Volume.{
  UnlockedVolume, read_at, read_locked, read_sectors, write_at, write_locked, store, flush_locked,
}
use winluks.Adapter
use winluks.Adapter.{BlockAdapter, inner}

module _ (B : Backend) (P : Libraries) where
  volume_read-faulted :
      (v : UnlockedVolume B) (o n : ℕ)
      → v.faulted ≡ true
      → ((read_at B P v o n).1.faulted ≡ true)
        × ((bytes : List ℕ) → (read_at B P v o n).0 ≢ ok bytes)
  unfolding read_at read_locked
  volume_read-faulted v o n f = ground arith

  volume_write-faulted :
      (v : UnlockedVolume B) (o : ℕ) (bytes : List ℕ)
      → v.faulted ≡ true
      → ((write_at B P v o bytes).1.faulted ≡ true) × ((write_at B P v o bytes).0 ≢ ok tt)
  unfolding write_at write_locked
  volume_write-faulted v o bytes f = ground arith

  volume_flush-faulted :
      (v : UnlockedVolume B)
      → v.faulted ≡ true
      → ((Volume.flush B v).1.faulted ≡ true) × ((Volume.flush B v).0 ≢ ok tt)
  unfolding Volume.flush flush_locked
  volume_flush-faulted v f = ground arith

  module _ (a : BlockAdapter B) (f : (inner B a).faulted ≡ true) where
    pub read-faulted :
        (lba count : ℕ)
        → ((inner B (Adapter.read B P a lba count).1).faulted ≡ true)
          × ((bytes : List ℕ) → (Adapter.read B P a lba count).0 ≢ ok bytes)
    unfolding Adapter.read
    read-faulted lba count =
        ground (arith, volume_read-faulted (inner B a) (lba * 512) (count * 512) f)

    pub write-faulted :
        (lba : ℕ) (bytes : List ℕ)
        → ((inner B (Adapter.write B P a lba bytes).1).faulted ≡ true)
          × ((Adapter.write B P a lba bytes).0 ≢ ok tt)
    unfolding Adapter.write
    write-faulted lba bytes = ground (arith, volume_write-faulted (inner B a) (lba * 512) bytes f)

    pub flush-faulted :
        (lba count : ℕ)
        → ((inner B (Adapter.flush B a lba count).1).faulted ≡ true)
          × ((Adapter.flush B a lba count).0 ≢ ok tt)
    unfolding Adapter.flush
    flush-faulted lba count = ground (arith, volume_flush-faulted (inner B a) f)

module _ (P : Libraries) (dir : Direction) (key : List ℕ) (first : ℕ) where
  crypt_loop-error :
      (left i : ℕ) (text : List ℕ) → crypt_loop P dir key first left i text ≢ err writeback_failed
  unfolding crypt_loop
  crypt_loop-error zero i text = ground arith
  crypt_loop-error (suc left) i text = grind (arith, crypt_loop-error left)

  crypt_sectors-error : (text : List ℕ) → crypt_sectors P dir key first text ≢ err writeback_failed
  unfolding crypt_sectors
  crypt_sectors-error text = grind (arith, crypt_loop-error)

module _ (B : Backend) (P : Libraries) where
  read_loop-error :
      (fuel : ℕ) (f : B.File) (offset total : ℕ) (buf : List ℕ)
      → (read_loop B fuel f offset total buf).0 ≢ err writeback_failed
  unfolding read_loop
  read_loop-error zero f offset total buf = λ e. cc
  read_loop-error (suc fuel) f offset total buf = grind (arith, read_loop-error fuel)

  read_exact_at-error :
      (im : Image B) (offset n : ℕ) → (read_exact_at B im offset n).0 ≢ err writeback_failed
  unfolding read_exact_at
  read_exact_at-error im offset n = grind (arith, read_loop-error)

  -- The error of a lost write comes with the fault.
  volume_read-lost :
      (v : UnlockedVolume B) (o n : ℕ)
      → (read_at B P v o n).0 ≡ err writeback_failed
      → (read_at B P v o n).1.faulted ≡ true
  unfolding read_at read_locked read_sectors
  volume_read-lost v o n e = grind (arith, e, read_exact_at-error, crypt_sectors-error)

  volume_write-lost :
      (v : UnlockedVolume B) (o : ℕ) (bytes : List ℕ)
      → (write_at B P v o bytes).0 ≡ err writeback_failed
      → (write_at B P v o bytes).1.faulted ≡ true
  unfolding write_at write_locked store
  volume_write-lost v o bytes e = grind (arith, e, crypt_sectors-error)

  volume_flush-lost :
      (v : UnlockedVolume B)
      → (Volume.flush B v).0 ≡ err writeback_failed
      → (Volume.flush B v).1.faulted ≡ true
  unfolding Volume.flush flush_locked
  volume_flush-lost v e = ground arith

  pub adapter_read-lost :
      (a : BlockAdapter B) (lba count : ℕ)
      → (Adapter.read B P a lba count).0 ≡ err writeback_failed
      → (inner B (Adapter.read B P a lba count).1).faulted ≡ true
  unfolding Adapter.read
  adapter_read-lost a lba count e =
      ground (arith, volume_read-lost (inner B a) (lba * 512) (count * 512))

  pub adapter_write-lost :
      (a : BlockAdapter B) (lba : ℕ) (bytes : List ℕ)
      → (Adapter.write B P a lba bytes).0 ≡ err writeback_failed
      → (inner B (Adapter.write B P a lba bytes).1).faulted ≡ true
  unfolding Adapter.write
  adapter_write-lost a lba bytes e = ground (arith, volume_write-lost (inner B a) (lba * 512) bytes)

  pub adapter_flush-lost :
      (a : BlockAdapter B) (lba count : ℕ)
      → (Adapter.flush B a lba count).0 ≡ err writeback_failed
      → (inner B (Adapter.flush B a lba count).1).faulted ≡ true
  unfolding Adapter.flush
  adapter_flush-lost a lba count e = ground (arith, volume_flush-lost (inner B a))
