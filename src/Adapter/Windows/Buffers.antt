-- ===== src/Adapter/Windows/Buffers.antt =====
-- The buffers of the callbacks of src/adapter/windows.rs, and what they tell of a disk.
use Prim.Native.Nat.{zero, suc}
use winluks.Base.{ℕ, ◌*◌, ◌≡◌, ◌≢◌, inr, refl, ap, ◌∙◌, true, List, [], ◌∷◌, ◌++◌, arith, ◌!=◌}
use winluks.Base.{none, some, drop, replicate, length, length-replicate, drop-append}
use winluks.Base.Contents.{Contents, slice, length-slice}
use winluks.Error.{Error, Outcome, ok, err, panic, unfinished}
use winluks.Image.Os.{Backend}
use winluks.Crypto.Primitives.{Libraries}
use winluks.Adapter.{BlockAdapter}
use winluks.Adapter.Windows.Callbacks.{Buffer, clear_blocks, copy_bytes, fill, status_of}
use winluks.Adapter.Windows.Reach.{Callback, holding, disk_after, Tells}

-- Overwriting a cleared buffer leaves only what lies behind it.
drop-clear : (n : ℕ) (m : List ℕ) → drop n (replicate n 0 ++ drop n m) ≡ drop n m
drop-clear n m = drop-append n 0 n (replicate n 0) (drop n m) (length-replicate n 0) (omega arith)

suc-nonzero : (n : ℕ) → (suc n != 0) ≡ true
suc-nonzero n = ground arith

pub copy_bytes-clear_blocks :
    (count : ℕ) (bytes : List ℕ) (buffer : Buffer)
    → length bytes ≡ count * 512
    → copy_bytes bytes (clear_blocks count buffer) ≡ holding count bytes buffer
copy_bytes-clear_blocks count bytes none e = ground arith
copy_bytes-clear_blocks zero [] (some m) e = refl
copy_bytes-clear_blocks zero (x ∷ bytes) (some m) e = absurd (omega arith)
copy_bytes-clear_blocks (suc count) [] (some m) e = absurd (omega arith)
copy_bytes-clear_blocks (suc count) (x ∷ bytes) (some m) e =
    rw (suc-nonzero count, suc-nonzero (length bytes), e)
      (ap (λ r. some ((x ∷ bytes) ++ r)) (drop-clear (suc count * 512) m))

pub clear_blocks_twice :
    (count : ℕ) (buffer : Buffer)
    → clear_blocks count (clear_blocks count buffer)
      ≡ holding count (replicate (count * 512) 0) buffer
clear_blocks_twice count none = ground arith
clear_blocks_twice zero (some m) = refl
clear_blocks_twice (suc count) (some m) =
    rw (suc-nonzero count)
      (ap (λ r. some (replicate (suc count * 512) 0 ++ r)) (drop-clear (suc count * 512) m))

pub status_of-suc : (e : Error) → (s : ℕ) × (status_of e ≡ suc s)
unfolding status_of
status_of-suc Error.read_only = (0, refl)
status_of-suc Error.invalid_range = (1, refl)
status_of-suc Error.stopping = (2, refl)
status_of-suc Error.writeback_failed = (4, refl)
status_of-suc Error.unsupported_operation = (5, refl)
status_of-suc e = (3, refl)

module _ (B : Backend) (P : Libraries) where
  -- The buffer of a read tells the disk that its bytes, if it has any, are from.
  pub fill-Tells :
      (disk : Contents) (lba count : ℕ) (buffer : Buffer) (x : Outcome (List ℕ) × BlockAdapter B)
      → ((bytes : List ℕ) → x.0 ≡ ok bytes → bytes ≡ slice disk (lba * 512) (count * 512))
      → let r = fill B P count (clear_blocks count buffer) x in
        Tells disk (Callback.read lba count buffer) r.status r.buffer
  fill-Tells disk lba count buffer (ok bytes, b) honest =
      let same = honest bytes refl in
      let size = ap length same ∙ length-slice disk (lba * 512) (count * 512) in
      copy_bytes-clear_blocks count bytes buffer size ∙ ap (λ z. holding count z buffer) same
  fill-Tells disk lba count buffer (err e, b) honest =
      let s = status_of-suc e in rw s.1 (inr (clear_blocks_twice count buffer))
  fill-Tells disk lba count buffer (panic, b) honest = inr (clear_blocks_twice count buffer)
  fill-Tells disk lba count buffer (unfinished, b) honest = tt

-- Only a write of status 0 changes the disk.
pub disk_after-same :
    (disk : Contents) (c : Callback) (s : Outcome ℕ) → s ≢ ok 0 → disk_after disk c s ≡ disk
disk_after-same disk (Callback.read lba count buffer) s n = refl
disk_after-same disk (Callback.control op lba count) s n = refl
disk_after-same disk (Callback.write lba count buffer) (ok zero) n = absurd (n refl)
disk_after-same disk (Callback.write lba count buffer) (ok (suc k)) n = refl
disk_after-same disk (Callback.write lba count buffer) (err e) n = refl
disk_after-same disk (Callback.write lba count buffer) panic n = refl
disk_after-same disk (Callback.write lba count buffer) unfinished n = refl
