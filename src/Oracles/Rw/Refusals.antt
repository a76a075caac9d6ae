-- ===== src/Oracles/Rw/Refusals.antt =====
-- The calls of examples/rw_oracle.rs that must be refused, and the end of each command.
use winluks.Base.{ℕ, ◌-◌, ◌*◌, ◌/◌, ◌^◌, ◌<◌, ◌≡◌, ◌≢◌, false, List, arith, length}
use winluks.Error.{err, unfinished, invalid_range, stopping, unsupported_operation}
use winluks.Image.Os.{Backend, IsPatient}
use winluks.Image.{AccessMode}
use winluks.Image.Access.{sync-ne-unfinished}
use winluks.Crypto.Primitives.{Libraries}
use winluks.Volume
use winluks.Volume.{UnlockedVolume, write_at, out_of_range, flush_locked}
use winluks.Volume.Payload.{IsPlaced}
use winluks.Volume.Totality.{read_at-ne-unfinished, write_at-ne-unfinished}
use winluks.Adapter
use winluks.Adapter.{BlockAdapter, inner}

module _ (B : Backend) (P : Libraries) (a : BlockAdapter B)
    (writable : (inner B a).image.mode ≡ AccessMode.read_write) where
  -- The byte offset of the last block number is no 64-bit number.
  pub write_overflow :
      (bytes : List ℕ)
      → a.stopped ≡ false
      → (Adapter.write B P a (2 ^ 64 - 1) bytes).0 ≡ err invalid_range
  unfolding Adapter.write
  write_overflow bytes running = ground arith

  pub write_end :
      (bytes : List ℕ)
      → a.stopped ≡ false
      → IsPlaced (inner B a)
      → 0 < length bytes
      → (Adapter.write B P a ((inner B a).len / 512) bytes).0 ≡ err invalid_range
  unfolding Adapter.write write_at out_of_range
  write_end bytes running placed some_bytes =
      let whole : (inner B a).len / 512 * 512 ≡ (inner B a).len = omega (arith, placed.whole) in
      ground (arith, whole)

  pub unmap_refused : (Adapter.unmap B a).0 ≡ err unsupported_operation
  unfolding Adapter.unmap
  unmap_refused = ground arith

  pub write_stopped :
      (lba : ℕ) (bytes : List ℕ) → (Adapter.write B P (Adapter.stop B a) lba bytes).0 ≡ err stopping
  unfolding Adapter.write Adapter.stop
  write_stopped lba bytes = ground arith

module _ (B : Backend) (patient : IsPatient B) (P : Libraries) (a : BlockAdapter B) where
  pub read-ne-unfinished : (lba count : ℕ) → (Adapter.read B P a lba count).0 ≢ unfinished
  unfolding Adapter.read
  read-ne-unfinished lba count =
      ground (arith, read_at-ne-unfinished B patient P (inner B a) (lba * 512) (count * 512))

  pub write-ne-unfinished :
      (lba : ℕ) (bytes : List ℕ) → (Adapter.write B P a lba bytes).0 ≢ unfinished
  unfolding Adapter.write
  write-ne-unfinished lba bytes =
      ground (arith, write_at-ne-unfinished B patient P (inner B a) (lba * 512) bytes)

  volume_flush-ne-unfinished : (v : UnlockedVolume B) → (Volume.flush B v).0 ≢ unfinished
  unfolding Volume.flush flush_locked
  volume_flush-ne-unfinished v = ground (arith, sync-ne-unfinished B v.image)

  pub flush-ne-unfinished : (lba count : ℕ) → (Adapter.flush B a lba count).0 ≢ unfinished
  unfolding Adapter.flush
  flush-ne-unfinished lba count = ground (arith, volume_flush-ne-unfinished (inner B a))
