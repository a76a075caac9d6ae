-- ===== src/Adapter/Windows/History.antt =====
-- What holds of every history of src/adapter/windows.rs: by induction on how it was reached.
use winluks.Base.{ℕ, ◌*◌, ◌≡◌, ◌≢◌, ◌⊎◌, inl, inr, refl, true, List, arith, ◌==◌}
use winluks.Base.{none, Bool-cases}
use winluks.Base.Contents.{Contents, slice}
use winluks.Error.{Outcome, ok, err, panic, unfinished}
use winluks.Image.Os.{Backend, IsFile, IsPatient}
use winluks.Crypto.Primitives.{Libraries, IsCipher}
use winluks.Volume.Payload.{IsPlaced, Shows}
use winluks.Adapter
use winluks.Adapter.{BlockAdapter, inner, mark_faulted}
use winluks.Adapter.Disk.{Holds, read-Holds, read_honest, write-Holds, flush-Holds}
use winluks.Adapter.Windows.Callbacks.{
  Buffer, bad_buffer, blocks, clear_blocks, fill, caught, status_of,
}
use winluks.Adapter.Windows.Callbacks.{read_request, write_request, control_request}
use winluks.Adapter.Windows.Flagged.{
  IsFlagged, adapter_read-IsFlagged, adapter_write-IsFlagged, adapter_flush-IsFlagged,
}
use winluks.Adapter.Windows.Reach.{Callback, Event, disk_after, Tells, disk_of, AllTell, call}
use winluks.Adapter.Windows.Reach.{Reaches, start, called, marked, flushed, halted}
use winluks.Adapter.Windows.Buffers.{status_of-suc, fill-Tells, disk_after-same}

module _ (B : Backend) (L : IsFile B) (patient : IsPatient B) (P : Libraries) (C : IsCipher P) where
  -- What every adapter on the way keeps.
  record IsSound (b : BlockAdapter B) (disk : Contents) : Type 0 where
    holds : Holds B L patient P C (inner B b) disk
    flagged : IsFlagged (inner B b)

  mark_faulted-IsSound :
      (b : BlockAdapter B) (disk : Contents)
      → Holds B L patient P C (inner B b) disk
      → IsSound (mark_faulted B b) disk
  mark_faulted-IsSound b disk h = record {
    holds = record {
      placed = record {
        whole = h.placed.whole;
        inside = h.placed.inside;
        addressable = h.placed.addressable;
      };
      state = inr (record { broken = inl refl });
    };
    flagged = record { flagged = inr refl };
  }

  fill-IsSound :
      (disk : Contents) (lba count : ℕ) (buffer : Buffer) (x : Outcome (List ℕ) × BlockAdapter B)
      → ((bytes : List ℕ) → x.0 ≡ ok bytes → bytes ≡ slice disk (lba * 512) (count * 512))
      → Holds B L patient P C (inner B x.1) disk
      → (x.0 ≢ panic → IsFlagged (inner B x.1))
      → let r = fill B P count (clear_blocks count buffer) x in
        Tells disk (Callback.read lba count buffer) r.status r.buffer × IsSound r.adapter disk
  fill-IsSound disk lba count buffer x honest h f =
      (fill-Tells B P disk lba count buffer x honest, sound x h f)
    where
      sound :
          (x : Outcome (List ℕ) × BlockAdapter B)
          → Holds B L patient P C (inner B x.1) disk
          → (x.0 ≢ panic → IsFlagged (inner B x.1))
          → IsSound (fill B P count (clear_blocks count buffer) x).adapter disk
      sound (ok bytes, b) h f = record { holds = h; flagged = f (λ e. cc) }
      sound (err e, b) h f = record { holds = h; flagged = f (λ e. cc) }
      sound (panic, b) h f = mark_faulted-IsSound b disk h
      sound (unfinished, b) h f = record { holds = h; flagged = f (λ e. cc) }

  read-IsSound :
      (b : BlockAdapter B) (disk : Contents) (lba count : ℕ) (buffer : Buffer)
      → IsSound b disk
      → let r = read_request B P b lba count buffer in
        Tells disk (Callback.read lba count buffer) r.status r.buffer × IsSound r.adapter disk
  unfolding read_request
  read-IsSound b disk lba count buffer s = elim (Bool-cases (bad_buffer count buffer)) [
    | inl bad ↦ rw bad (inl (bad, refl), s)
    | inr good ↦ rw good (
        fill-IsSound disk lba count buffer (Adapter.read B P b lba count)
          (λ bytes e. read_honest B L patient P C b disk lba count bytes s.holds e)
          (read-Holds B L patient P C b disk lba count s.holds)
          (adapter_read-IsFlagged B P b s.flagged lba count))
  ]

  -- An operation without bytes, of which an acknowledged one has changed the disk to `next`.
  caught-IsSound :
      (disk : Contents) (c : Callback) (buffer : Buffer) (x : Outcome (Unit {0}) × BlockAdapter B)
      → ((x.0 ≡ ok tt) → Holds B L patient P C (inner B x.1) (disk_after disk c (ok 0)))
      → ((x.0 ≢ ok tt) → Holds B L patient P C (inner B x.1) disk)
      → ((s : Outcome ℕ) → s ≢ ok 0 → disk_after disk c s ≡ disk)
      → (x.0 ≢ panic → IsFlagged (inner B x.1))
      → let r = caught B buffer x in IsSound r.adapter (disk_after disk c r.status)
  caught-IsSound disk c buffer (ok _, b) done not_done same f = record {
    holds = done refl;
    flagged = f (λ e. cc);
  }
  caught-IsSound disk c buffer (err e, b) done not_done same f =
      let s = status_of-suc e in
      rw (same (ok (status_of e)) (λ q. ground (arith, s.1)))
        (record { holds = not_done (λ q. cc); flagged = f (λ q. cc) })
  caught-IsSound disk c buffer (panic, b) done not_done same f =
      rw (same (ok 5) (λ q. ground arith)) (mark_faulted-IsSound b disk (not_done (λ q. cc)))
  caught-IsSound disk c buffer (unfinished, b) done not_done same f =
      rw (same unfinished (λ q. cc)) (record { holds = not_done (λ q. cc); flagged = f (λ q. cc) })

  write-IsSound :
      (b : BlockAdapter B) (disk : Contents) (lba count : ℕ) (buffer : Buffer)
      → IsSound b disk
      → let r = write_request B P b lba count buffer in
        IsSound r.adapter (disk_after disk (Callback.write lba count buffer) r.status)
  unfolding write_request
  write-IsSound b disk lba count buffer s = elim (Bool-cases (bad_buffer count buffer)) [
    | inl bad ↦ rw bad s
    | inr good ↦ rw good (
        caught-IsSound disk (Callback.write lba count buffer) buffer
          (Adapter.write B P b lba (blocks count buffer))
          (λ e. write-Holds B L patient P C b disk lba (blocks count buffer) (ok tt) s.holds e)
          (λ e. not_written _ refl e) (disk_after-same disk (Callback.write lba count buffer))
          (adapter_write-IsFlagged B P b s.flagged lba (blocks count buffer)))
  ]
    where
      not_written :
          (r : Outcome (Unit {0}))
          → (Adapter.write B P b lba (blocks count buffer)).0 ≡ r
          → (Adapter.write B P b lba (blocks count buffer)).0 ≢ ok tt
          → Holds B L patient P C (inner B (Adapter.write B P b lba (blocks count buffer)).1) disk
      not_written (ok t) e n = absurd (n e)
      not_written (err x) e n =
          write-Holds B L patient P C b disk lba (blocks count buffer) (err x) s.holds e
      not_written panic e n =
          write-Holds B L patient P C b disk lba (blocks count buffer) panic s.holds e
      not_written unfinished e n =
          write-Holds B L patient P C b disk lba (blocks count buffer) unfinished s.holds e

  control-IsSound :
      (b : BlockAdapter B) (disk : Contents) (op lba count : ℕ)
      → IsSound b disk
      → IsSound (control_request B b op lba count).adapter disk
  unfolding control_request Adapter.unmap
  control-IsSound b disk op lba count s = elim (Bool-cases (op == 2)) [
    | inl two ↦ rw two (
        caught-IsSound disk (Callback.control op lba count) none (Adapter.flush B b lba count)
          (λ e. flush-Holds B L patient P C b disk lba count s.holds)
          (λ e. flush-Holds B L patient P C b disk lba count s.holds) (λ r n. refl)
          (adapter_flush-IsFlagged B P b s.flagged lba count))
    | inr other ↦ rw other (elim (Bool-cases (op == 3)) [
      | inl three ↦ rw three (record { holds = s.holds; flagged = s.flagged })
      | inr bad ↦ rw bad s
    ])
  ]

  stop-IsSound :
      (b : BlockAdapter B) (disk : Contents) → IsSound b disk → IsSound (Adapter.stop B b) disk
  unfolding Adapter.stop
  stop-IsSound b disk s = record { holds = s.holds; flagged = s.flagged }

  call-IsSound :
      (b : BlockAdapter B) (disk : Contents) (c : Callback)
      → IsSound b disk
      → let r = call B P b c in
        Tells disk c r.status r.buffer × IsSound r.adapter (disk_after disk c r.status)
  unfolding call
  call-IsSound b disk (Callback.read lba count buffer) s = read-IsSound b disk lba count buffer s
  call-IsSound b disk (Callback.write lba count buffer) s =
      (tt, write-IsSound b disk lba count buffer s)
  call-IsSound b disk (Callback.control op lba count) s =
      (tt, control-IsSound b disk op lba count s)

  Reaches-IsSound :
      {a : BlockAdapter B} {es : List Event} {b : BlockAdapter B} (disk : Contents)
      → IsSound a disk
      → Reaches B P a es b
      → AllTell disk es × IsSound b (disk_of disk es)
  Reaches-IsSound disk s start = (tt, s)
  Reaches-IsSound disk s (called {es} {b} r c) =
      let before = Reaches-IsSound disk s r in
      let now = call-IsSound b (disk_of disk es) c before.1 in ((now.0, before.0), now.1)
  Reaches-IsSound disk s (marked {es} {b} r) =
      let before = Reaches-IsSound disk s r in
      (before.0, mark_faulted-IsSound b (disk_of disk es) before.1.holds)
  Reaches-IsSound disk s (flushed {es} {b} r lba count n) =
      let before = Reaches-IsSound disk s r in
      (
        before.0,
        record {
          holds = flush-Holds B L patient P C b (disk_of disk es) lba count before.1.holds;
          flagged = adapter_flush-IsFlagged B P b before.1.flagged lba count n;
        },
      )
  Reaches-IsSound disk s (halted {es} {b} r) =
      let before = Reaches-IsSound disk s r in (before.0, stop-IsSound b (disk_of disk es) before.1)

  -- In any interleaving of callbacks with faults, flushes and stops of the server, a read of
  -- status 0 has put into its buffer what a plain disk with exactly the acknowledged writes holds,
  -- a read of any other final status has left zeros there or, for bad arguments, the buffer as it
  -- was, and the volume shows that disk at the end unless it is faulted. The volume has its
  -- payload in whole sectors inside the image, shows a disk at first and has a poisoned lock only
  -- with the fault, over a backend that behaves as a file and of which the interruptions end, and
  -- a cipher that decrypts what it encrypted.
  pub Reaches-AllTell :
      {a : BlockAdapter B} {es : List Event} {b : BlockAdapter B} (disk : Contents)
      → IsPlaced (inner B a)
      → Shows L P (inner B a) disk
      → IsFlagged (inner B a)
      → Reaches B P a es b
      → AllTell disk es × (((inner B b).faulted ≡ true) ⊎ Shows L P (inner B b) (disk_of disk es))
  Reaches-AllTell {a} {es} {b} disk placed shows f r =
      let s =
        Reaches-IsSound disk
          (record { holds = record { placed = placed; state = inl shows }; flagged = f }) r in
      (
        s.0,
        elim s.1.holds.state [
          | inl now ↦ inr now
          | inr broken ↦ inl (ground (arith, broken.broken, s.1.flagged.flagged))
        ],
      )
