-- ===== src/Adapter/Windows/Threads/Works.antt =====
-- The steps of one callback of src/adapter/windows.rs against a plain disk.
use Prim.Native.Nat.{suc}
use winluks.Base.{ℕ, ◌*◌, ◌≡◌, ◌≢◌, inl, inr, refl, true, false, ◌==◌, arith}
use winluks.Base.{Bool, if◌then◌else◌, Option, none, some, Bool-cases}
use winluks.Base.Contents.{Contents, overwrite}
use winluks.Error.{Error, Outcome, ok, err, panic, unfinished}
use winluks.Image.Os.{Backend, IsFile, IsPatient}
use winluks.Crypto.Primitives.{Libraries, IsCipher}
use winluks.Volume
use winluks.Adapter
use winluks.Adapter.{BlockAdapter, inner, mark_faulted, on_volume}
use winluks.Adapter.Disk.{Holds, read_at-Holds, read_at_honest, write_at-Holds, volume_flush-Holds}
use winluks.Adapter.Windows.Callbacks.{Buffer, refused, status_of, blocks, bad_buffer, caught}
use winluks.Adapter.Windows.Reach.{Callback, Event, Tells, disk_after}
use winluks.Adapter.Windows.Buffers.{status_of-suc, clear_blocks_twice, fill-Tells, disk_after-same}
use winluks.Adapter.Windows.Threads.{
  Gate, Work, entry, work, gated, before_read, before_write, before_flush, ended,
}

-- What refuses without the volume says nothing of the disk, and changes nothing.
pub record IsIdle (disk : Contents) (e : Event) : Type 0 where
  pub tells : Tells disk e.callback e.status e.buffer
  pub kept : disk_after disk e.callback e.status ≡ disk
  pub denied : e.status ≢ ok 0

some-injective : {x y : Event} → some x ≡ some y → x ≡ y
some-injective q = cc

module _ (B : Backend) (disk : Contents) where
  gated-IsIdle :
      (c : Callback) (buffer : Buffer) (g : Gate B) (e : Event)
      → ((k : ℕ) → Tells disk c (ok (suc k)) buffer)
      → (gated B c buffer g).0 ≡ some e
      → IsIdle disk e
  gated-IsIdle c buffer g e tells q = by_refusal g.refusal q
    where
      by_refusal :
          (r : Option Error)
          → (gated B c buffer (record { refusal = r; adapter = g.adapter })).0 ≡ some e
          → IsIdle disk e
      by_refusal none q = absurd (cc)
      by_refusal (some x) q =
          let s = status_of-suc x in
          let same : record { callback = c; status = ok (suc s.0); buffer = buffer } ≡ e =
            rw (← s.1) (cc) in
          rw (← same) (record {
            tells = tells s.0;
            kept = disk_after-same disk c (ok (suc s.0)) (λ z. ground arith);
            denied = λ z. ground arith;
          })

  unmap-denied :
      (a : BlockAdapter B) (three : Bool)
      → (if three then caught B none (Adapter.unmap B a) else refused B none a).status ≢ ok 0
  unfolding Adapter.unmap status_of
  unmap-denied a true = ground arith
  unmap-denied a false = ground arith

  pub entry-IsIdle :
      (a : BlockAdapter B) (c : Callback) (e : Event) → (entry B a c).0 ≡ some e → IsIdle disk e
  unfolding entry Adapter.unmap
  entry-IsIdle a (Callback.read lba count buffer) e q =
      elim (Bool-cases (bad_buffer count buffer)) [
        | inl bad ↦
            let told : some (record {
              callback = Callback.read lba count buffer;
              status = ok 2;
              buffer = buffer;
            })
                ≡ some e =
              rw bad at q in
            rw (← some-injective told)
              (record { tells = inl (bad, refl); kept = refl; denied = λ z. ground arith })
        | inr good ↦
            gated-IsIdle (Callback.read lba count buffer) _ (before_read B a lba count) e
              (λ k. inr (clear_blocks_twice count buffer)) (rw good at q)
      ]
  entry-IsIdle a (Callback.write lba count buffer) e q =
      elim (Bool-cases (bad_buffer count buffer)) [
        | inl bad ↦
            let told : some (record {
              callback = Callback.write lba count buffer;
              status = ok 2;
              buffer = buffer;
            })
                ≡ some e =
              rw bad at q in
            rw (← some-injective told)
              (record { tells = tt; kept = refl; denied = λ z. ground arith })
        | inr good ↦
            gated-IsIdle (Callback.write lba count buffer) buffer (before_write B a lba) e (λ k. tt)
              (rw good at q)
      ]
  entry-IsIdle a (Callback.control op lba count) e q = elim (Bool-cases (op == 2)) [
    | inl two ↦
        gated-IsIdle (Callback.control op lba count) none (before_flush B a lba count) e (λ k. tt)
          (rw two at q)
    | inr other ↦
        let told = some-injective (rw other at q) in
        rw (← told) (record { tells = tt; kept = refl; denied = unmap-denied a (op == 3) })
  ]

  pub entry-inner : (a : BlockAdapter B) (c : Callback) → inner B (entry B a c).1 ≡ inner B a
  unfolding entry before_read before_write before_flush Adapter.unmap
  entry-inner a (Callback.read lba count buffer) = ground arith
  entry-inner a (Callback.write lba count buffer) = ground arith
  entry-inner a (Callback.control op lba count) = ground arith

module _ (B : Backend) (L : IsFile B) (patient : IsPatient B) (P : Libraries) (C : IsCipher P) where
  abbrev pub InDisk : BlockAdapter B → Contents → Type 0
  InDisk a disk = Holds B L patient P C (inner B a) disk

  -- A step under the lock: its reply tells the disk before it, and the disk after it is held.
  pub record IsWork (disk : Contents) (w : Work B) : Type 0 where
    pub tells : Tells disk w.event.callback w.event.status w.event.buffer
    pub holds : InDisk w.adapter (disk_after disk w.event.callback w.event.status)

  -- The disk under an operation without bytes: `next` if it is acknowledged.
  ended-IsWork :
      (disk next : Contents) (c : Callback) (buffer : Buffer)
      (x : Outcome (Unit {0}) × BlockAdapter B)
      → ((s : Outcome ℕ) (b : Buffer) → Tells disk c s b)
      → disk_after disk c (ok 0) ≡ next
      → ((r : Outcome (Unit {0})) → x.0 ≡ r → InDisk x.1 (elim r [ ok _ ↦ next | _ ↦ disk ]))
      → IsWork disk (ended B P c buffer x)
  ended-IsWork disk next c buffer (ok _, b) tells after h = record {
    tells = tells _ _;
    holds = rw after (h (ok _) refl);
  }
  ended-IsWork disk next c buffer (err e, b) tells after h =
      let s = status_of-suc e in
      record {
        tells = tells _ _;
        holds =
            rw (s.1, disk_after-same disk c (ok (suc s.0)) (λ q. ground arith)) (h (err e) refl);
      }
  ended-IsWork disk next c buffer (panic, b) tells after h = record {
    tells = tells _ _;
    holds = rw (disk_after-same disk c (ok 5) (λ q. ground arith)) (h panic refl);
  }
  ended-IsWork disk next c buffer (unfinished, b) tells after h = record {
    tells = tells _ _;
    holds = rw (disk_after-same disk c unfinished (λ q. cc)) (h unfinished refl);
  }

  pub work-IsWork :
      (a : BlockAdapter B) (c : Callback) (disk : Contents)
      → InDisk a disk
      → IsWork disk (work B P a c)
  unfolding work
  work-IsWork a (Callback.read lba count buffer) disk h = record {
    tells =
        fill-Tells B P disk lba count buffer
          (on_volume B a (λ v. Volume.read_at B P v (lba * 512) (count * 512)))
          (λ bytes e.
            read_at_honest B L patient P C (inner B a) disk (lba * 512) (count * 512) bytes h e);
    holds = read_at-Holds B L patient P C (inner B a) disk (lba * 512) (count * 512) h;
  }
  work-IsWork a (Callback.write lba count buffer) disk h =
      ended-IsWork disk (overwrite disk (lba * 512) (blocks count buffer))
        (Callback.write lba count buffer) buffer _ (λ s b. tt) refl
        (λ r. write_at-Holds B L patient P C (inner B a) disk (lba * 512) (blocks count buffer) r h)
  work-IsWork a (Callback.control op lba count) disk h =
      ended-IsWork disk disk (Callback.control op lba count) none _ (λ s b. tt) refl
        (λ r e. kept r (volume_flush-Holds B L patient P C (inner B a) disk h))
    where
      kept :
          (r : Outcome (Unit {0}))
          → InDisk (on_volume B a (Volume.flush B)).1 disk
          → InDisk (on_volume B a (Volume.flush B)).1 (elim r [ ok _ ↦ disk | _ ↦ disk ])
      kept (ok _) h = h
      kept (err e) h = h
      kept panic h = h
      kept unfinished h = h
