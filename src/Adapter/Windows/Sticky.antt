-- ===== src/Adapter/Windows/Sticky.antt =====
-- The sticky fault of a session of src/adapter/windows.rs.
use winluks.Base.{
  ℕ, ◌≡◌, ◌≢◌, refl, ap, not, if◌then◌else◌, none, true, Bool-cases, inl, inr, List, [], ◌∷◌, arith,
  ◌==◌,
}
use winluks.Error.{
  Error, Outcome, ok, err, panic, unfinished, writeback_failed, unsupported_operation,
}
use winluks.Image.Os.{Backend}
use winluks.Image.{is_read_write}
use winluks.Crypto.Primitives.{Libraries}
use winluks.Adapter
use winluks.Adapter.{BlockAdapter, inner}
use winluks.Adapter.Windows.Callbacks.{
  Buffer, caught, fill, read_request, write_request, control_request, blocks, status_of,
  clear_blocks,
}
use winluks.Adapter.Windows.Reach.{
  Callback, Event, call, Reaches, start, called, marked, flushed, halted,
}
use winluks.Adapter.Lost.{
  read-faulted, write-faulted, flush-faulted, adapter_read-lost, adapter_write-lost,
  adapter_flush-lost,
}

-- No event of the history was acknowledged.
abbrev pub NoneDone : List Event → Type 0
NoneDone [] = Unit
NoneDone (e ∷ es) = (e.status ≢ ok 0) × NoneDone es

module _ (B : Backend) (P : Libraries) where
  status_of-lost : (e : Error) → status_of e ≡ 5 → e ≡ writeback_failed
  unfolding status_of
  status_of-lost e h = ground arith

  status_of-zero : (e : Error) → status_of e ≢ 0
  unfolding status_of
  status_of-zero e = ground arith

  -- Status 5 stands for a panic, or for a write that was lost.
  caught-lost :
      (buffer : Buffer) (x : Outcome (Unit {0}) × BlockAdapter B)
      → (x.0 ≡ err writeback_failed → (inner B x.1).faulted ≡ true)
      → (caught B buffer x).status ≡ ok 5
      → (inner B (caught B buffer x).adapter).faulted ≡ true
  caught-lost buffer (ok _, b) lost e = absurd (ground arith)
  caught-lost buffer (err x, b) lost e = lost (ap err (status_of-lost x (ground arith)))
  caught-lost buffer (panic, b) lost e = refl
  caught-lost buffer (unfinished, b) lost e = absurd (cc)

  fill-lost :
      (count : ℕ) (cleared : Buffer) (x : Outcome (List ℕ) × BlockAdapter B)
      → (x.0 ≡ err writeback_failed → (inner B x.1).faulted ≡ true)
      → (fill B P count cleared x).status ≡ ok 5
      → (inner B (fill B P count cleared x).adapter).faulted ≡ true
  fill-lost count cleared (ok _, b) lost e = absurd (ground arith)
  fill-lost count cleared (err x, b) lost e = lost (ap err (status_of-lost x (ground arith)))
  fill-lost count cleared (panic, b) lost e = refl
  fill-lost count cleared (unfinished, b) lost e = absurd (cc)

  unmap-refused : (a : BlockAdapter B) → (Adapter.unmap B a).0 ≢ err writeback_failed
  unfolding Adapter.unmap
  unmap-refused a = ground arith

  call-lost :
      (a : BlockAdapter B) (c : Callback)
      → (call B P a c).status ≡ ok 5
      → (inner B (call B P a c).adapter).faulted ≡ true
  unfolding call read_request write_request control_request
  call-lost a (Callback.read lba count buffer) e = ground (
    arith,
    fill-lost count (clear_blocks count buffer) (Adapter.read B P a lba count)
        (adapter_read-lost B P a lba count),
  )
  call-lost a (Callback.write lba count buffer) e = ground (
    arith,
    caught-lost buffer (Adapter.write B P a lba (blocks count buffer))
        (adapter_write-lost B P a lba (blocks count buffer)),
  )
  call-lost a (Callback.control op lba count) e = elim (Bool-cases (op == 2)) [
    | inl two ↦ rw two (
        caught-lost none (Adapter.flush B a lba count) (adapter_flush-lost B P a lba count)
          (rw two at e))
    | inr other ↦ elim (Bool-cases (op == 3)) [
      | inl three ↦
          rw (other, three)
            (caught-lost none (Adapter.unmap B a) (λ u. absurd (unmap-refused a u))
              (rw (other, three) at e))
      | inr bad ↦ absurd (ground (arith, rw (other, bad) at e))
    ]
  ]

  caught-faulted :
      (buffer : Buffer) (x : Outcome (Unit {0}) × BlockAdapter B)
      → (inner B x.1).faulted ≡ true
      → x.0 ≢ ok tt
      → ((inner B (caught B buffer x).adapter).faulted ≡ true) × ((caught B buffer x).status ≢ ok 0)
  caught-faulted buffer (ok _, b) f n = absurd (n refl)
  caught-faulted buffer (err x, b) f n = (f, λ e. status_of-zero x (ground arith))
  caught-faulted buffer (panic, b) f n = (refl, λ e. absurd (ground arith))
  caught-faulted buffer (unfinished, b) f n = (f, λ e. cc)

  fill-faulted :
      (count : ℕ) (cleared : Buffer) (x : Outcome (List ℕ) × BlockAdapter B)
      → (inner B x.1).faulted ≡ true
      → ((bytes : List ℕ) → x.0 ≢ ok bytes)
      → ((inner B (fill B P count cleared x).adapter).faulted ≡ true)
        × ((fill B P count cleared x).status ≢ ok 0)
  fill-faulted count cleared (ok bytes, b) f n = absurd (n bytes refl)
  fill-faulted count cleared (err x, b) f n = (f, λ e. status_of-zero x (ground arith))
  fill-faulted count cleared (panic, b) f n = (refl, λ e. absurd (ground arith))
  fill-faulted count cleared (unfinished, b) f n = (f, λ e. cc)

  call-faulted :
      (a : BlockAdapter B) (c : Callback)
      → (inner B a).faulted ≡ true
      → ((inner B (call B P a c).adapter).faulted ≡ true) × ((call B P a c).status ≢ ok 0)
  unfolding call read_request write_request control_request Adapter.unmap
  call-faulted a (Callback.read lba count buffer) f =
      let r = read-faulted B P a f lba count in
      ground (
        arith,
        fill-faulted count (clear_blocks count buffer) (Adapter.read B P a lba count) r.0 r.1,
      )
  call-faulted a (Callback.write lba count buffer) f =
      let w = write-faulted B P a f lba (blocks count buffer) in
      ground (arith, caught-faulted buffer (Adapter.write B P a lba (blocks count buffer)) w.0 w.1)
  call-faulted a (Callback.control op lba count) f =
      let w = flush-faulted B P a f lba count in
      ground (
        arith,
        caught-faulted none (Adapter.flush B a lba count) w.0 w.1,
        status_of-zero (
            if not (is_read_write (inner B a).image.mode)
            then Error.read_only
            else unsupported_operation),
      )

  Reaches-NoneDone :
      {a b : BlockAdapter B} {es : List Event}
      → (inner B a).faulted ≡ true
      → Reaches B P a es b
      → ((inner B b).faulted ≡ true) × NoneDone es
  unfolding Adapter.stop
  Reaches-NoneDone f start = (f, tt)
  Reaches-NoneDone f (called {es} {b} r c) =
      let before = Reaches-NoneDone f r in
      let now = call-faulted b c before.0 in (now.0, (now.1, before.1))
  Reaches-NoneDone f (marked r) = (refl, (Reaches-NoneDone f r).1)
  Reaches-NoneDone f (flushed {es} {b} r lba count n) =
      let before = Reaches-NoneDone f r in ((flush-faulted B P b before.0 lba count).0, before.1)
  Reaches-NoneDone f (halted {es} {b} r) = Reaches-NoneDone f r

  -- After a callback of status 5, which stands for a panic or a lost write, the session stays
  -- faulted and no later callback is acknowledged, whatever callbacks, flushes and stops follow.
  pub lost-NoneDone :
      {b : BlockAdapter B} {es : List Event} (a : BlockAdapter B) (c : Callback)
      → (call B P a c).status ≡ ok 5
      → Reaches B P (call B P a c).adapter es b
      → ((inner B b).faulted ≡ true) × NoneDone es
  lost-NoneDone a c e r = Reaches-NoneDone (call-lost a c e) r
