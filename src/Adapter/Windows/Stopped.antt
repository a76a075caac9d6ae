-- ===== src/Adapter/Windows/Stopped.antt =====
-- A stopped session of src/adapter/windows.rs, as after `stop` in the shutdown.
use winluks.Base.{
  ℕ, ◌≡◌, ◌≢◌, inl, inr, refl, ap, ◌∙◌, none, true, Bool-cases, List, [], arith, ◌==◌,
}
use winluks.Error.{Outcome, ok, err, panic, unfinished, stopping}
use winluks.Image.Os.{Backend}
use winluks.Crypto.Primitives.{Libraries}
use winluks.Adapter
use winluks.Adapter.{BlockAdapter, inner}
use winluks.Adapter.Commands.{stopped_idle}
use winluks.Adapter.Windows.Callbacks.{
  Buffer, Reply, caught, fill, read_request, write_request, control_request, blocks, clear_blocks,
  bad_buffer,
}
use winluks.Adapter.Windows.Reach.{
  Callback, Event, call, Reaches, start, called, marked, flushed, halted,
}
use winluks.Adapter.Windows.Buffers.{status_of-suc}
use winluks.Adapter.Windows.Sticky.{NoneDone}

module _ (B : Backend) (P : Libraries) where
  -- Stopped, with the image of an earlier adapter.
  record IsHalted (a b : BlockAdapter B) : Type 0 where
    stopped : b.stopped ≡ true
    image : (inner B b).image ≡ (inner B a).image

  -- A reply that acknowledges nothing, and keeps the session stopped.
  record IsDenied (a : BlockAdapter B) (r : Reply B) : Type 0 where
    halted : IsHalted a r.adapter
    denied : r.status ≢ ok 0

  caught-IsDenied :
      (a : BlockAdapter B) (buffer : Buffer) (x : Outcome (Unit {0}) × BlockAdapter B)
      → IsHalted a x.1
      → x.0 ≢ ok tt
      → IsDenied a (caught B buffer x)
  caught-IsDenied a buffer (ok _, b) h n = absurd (n refl)
  caught-IsDenied a buffer (err e, b) h n =
      let s = status_of-suc e in record { halted = h; denied = λ q. ground (arith, s.1) }
  caught-IsDenied a buffer (panic, b) h n = record {
    halted = record { stopped = h.stopped; image = h.image };
    denied = λ q. absurd (ground arith);
  }
  caught-IsDenied a buffer (unfinished, b) h n = record { halted = h; denied = λ q. cc }

  fill-IsDenied :
      (a : BlockAdapter B) (count : ℕ) (buffer : Buffer) (x : Outcome (List ℕ) × BlockAdapter B)
      → IsHalted a x.1
      → x.0 ≡ err stopping
      → IsDenied a (fill B P count buffer x)
  fill-IsDenied a count buffer (ok bytes, b) h e = absurd (cc)
  fill-IsDenied a count buffer (err x, b) h e =
      let s = status_of-suc x in record { halted = h; denied = λ q. ground (arith, s.1) }
  fill-IsDenied a count buffer (panic, b) h e = absurd (cc)
  fill-IsDenied a count buffer (unfinished, b) h e = absurd (cc)

  read-stopped :
      (a : BlockAdapter B) (lba count : ℕ) → (Adapter.read B P a lba count).1.stopped ≡ a.stopped
  unfolding Adapter.read
  read-stopped a lba count = ground arith

  write-stopped :
      (a : BlockAdapter B) (lba : ℕ) (bytes : List ℕ)
      → (Adapter.write B P a lba bytes).1.stopped ≡ a.stopped
  unfolding Adapter.write
  write-stopped a lba bytes = ground arith

  flush-stopped :
      (a : BlockAdapter B) (lba count : ℕ) → (Adapter.flush B a lba count).1.stopped ≡ a.stopped
  unfolding Adapter.flush
  flush-stopped a lba count = ground arith

  unmap-stopped : (a : BlockAdapter B) → (Adapter.unmap B a).1.stopped ≡ a.stopped
  unfolding Adapter.unmap
  unmap-stopped a = refl

  call-IsDenied : (a : BlockAdapter B) (c : Callback) → a.stopped ≡ true → IsDenied a (call B P a c)
  unfolding call read_request write_request control_request
  call-IsDenied a (Callback.read lba count buffer) s =
      let idle = stopped_idle B P a s lba count [] in
      elim (Bool-cases (bad_buffer count buffer)) [
        | inl bad ↦ rw bad (by_refusal buffer)
        | inr good ↦ rw good (
            fill-IsDenied a count (clear_blocks count buffer) (Adapter.read B P a lba count)
              (record {
                stopped = read-stopped a lba count ∙ s;
                image = ap (λ v. v.volume.image) idle.4;
              })
              idle.0)
      ]
    where
      by_refusal : (b : Buffer) → IsDenied a (record { status = ok 2; buffer = b; adapter = a })
      by_refusal b = record {
        halted = record { stopped = s; image = refl };
        denied = λ q. absurd (ground arith);
      }
  call-IsDenied a (Callback.write lba count buffer) s =
      let idle = stopped_idle B P a s lba 0 (blocks count buffer) in
      elim (Bool-cases (bad_buffer count buffer)) [
        | inl bad ↦ rw bad (by_refusal buffer)
        | inr good ↦ rw good (
            caught-IsDenied a buffer (Adapter.write B P a lba (blocks count buffer))
              (record {
                stopped = write-stopped a lba (blocks count buffer) ∙ s;
                image = ap (λ v. v.volume.image) idle.5;
              })
              idle.1)
      ]
    where
      by_refusal : (b : Buffer) → IsDenied a (record { status = ok 2; buffer = b; adapter = a })
      by_refusal b = record {
        halted = record { stopped = s; image = refl };
        denied = λ q. absurd (ground arith);
      }
  call-IsDenied a (Callback.control op lba count) s =
      let idle = stopped_idle B P a s lba count [] in
      elim (Bool-cases (op == 2)) [
        | inl two ↦ rw two (
            caught-IsDenied a none (Adapter.flush B a lba count)
              (record {
                stopped = flush-stopped a lba count ∙ s;
                image = ap (λ v. v.volume.image) idle.6;
              })
              (λ q. cc (q, idle.2)))
        | inr other ↦ elim (Bool-cases (op == 3)) [
          | inl three ↦
              rw (other, three)
                (caught-IsDenied a none (Adapter.unmap B a)
                  (record {
                    stopped = unmap-stopped a ∙ s;
                    image = ap (λ v. v.volume.image) idle.7;
                  })
                  idle.3)
          | inr bad ↦
              rw (other, bad)
                (record {
                  halted = record { stopped = s; image = refl };
                  denied = λ q. absurd (ground arith);
                })
        ]
      ]

  -- From a stopped adapter on, whatever callbacks, faults, flushes and stops follow, the adapter
  -- stays stopped, the image stays as it was, and no callback is acknowledged.
  pub stopped-NoneDone :
      (a : BlockAdapter B) {b : BlockAdapter B} {es : List Event}
      → a.stopped ≡ true
      → Reaches B P a es b
      → (b.stopped ≡ true) × ((inner B b).image ≡ (inner B a).image) × NoneDone es
  unfolding Adapter.stop
  stopped-NoneDone a s start = (s, refl, tt)
  stopped-NoneDone a s (called {es} {b} r c) =
      let before = stopped-NoneDone a s r in
      let now = call-IsDenied b c before.0 in
      (now.halted.stopped, now.halted.image ∙ before.1, (now.denied, before.2))
  stopped-NoneDone a s (marked r) = stopped-NoneDone a s r
  stopped-NoneDone a s (flushed {es} {b} r lba count n) =
      let before = stopped-NoneDone a s r in
      let idle = stopped_idle B P b before.0 lba count [] in
      (flush-stopped b lba count ∙ before.0, ap (λ v. v.volume.image) idle.6 ∙ before.1, before.2)
  stopped-NoneDone a s (halted r) =
      let before = stopped-NoneDone a s r in (refl, before.1, before.2)
