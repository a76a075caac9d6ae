-- ===== src/Adapter/Windows/Threads.antt =====
-- Callbacks of src/adapter/windows.rs on many threads at once. A thread makes its tests, waits for
-- the lock of the volume, does its I/O under it, and after a panic sets the fault by itself. Each of
-- these is one step: the tests read only the one flag that changes, and what happens under the lock
-- reads the fault once, at its start.
pub mod Alone
pub mod Works
pub mod Timely
pub mod Linear
pub mod Broken
use winluks.Base.{ℕ, ◌+◌, ◌-◌, ◌*◌, ◌≡◌, Bool, true, false, List, ◌∷◌, ◌==◌, ltb, leb, not, ◌||◌}
use winluks.Base.{Option, none, some, if◌then◌else◌}
use winluks.Base.Words.{checked_mul, fetch_add_one}
use winluks.Error.{Error, stopping, invalid_range, unsupported_operation, Outcome, ok, err, panic}
use winluks.Error.{unfinished}
use winluks.Image.Os.{Backend}
use winluks.Image.{is_read_write}
use winluks.Crypto.Primitives.{Libraries}
use winluks.Volume
use winluks.Adapter
use winluks.Adapter.{BlockAdapter, inner, mark_faulted, on_volume, count_flush, count_write}
use winluks.Adapter.Windows.Callbacks.{
  Buffer, bad_buffer, blocks, clear_blocks, caught, fill, refused, Reply, status_of,
}
use winluks.Adapter.Windows.Reach.{Callback, Event}

-- Where a thread stands. Each holds the history at the time of its call.
pub data Pc : Type 0 where
  idle : Pc
  invoked : Callback → List Event → Pc
  waiting : Callback → List Event → Pc
  failed : Event → List Event → Pc  -- a panic has left the lock, and the fault is not yet set
  replied : Event → List Event → Pc

-- What stands before the lock: the adapter's error, if it refuses, and the adapter with its counts.
pub record Gate (B : Backend) : Type 0 where
  pub refusal : Option Error
  pub adapter : BlockAdapter B

-- What the call on the volume makes of a callback: the reply, and whether it was a panic.
pub record Work (B : Backend) : Type 0 where
  pub event : Event
  pub adapter : BlockAdapter B
  pub panicked : Bool

abbrev pub is_panic : {A : Type 0} → Outcome A → Bool
is_panic panic = true
is_panic _ = false

module _ (B : Backend) where
  abbrev gate : Option Error → BlockAdapter B → Gate B
  gate r a = record { refusal = r; adapter = a }

  -- `BlockAdapter::read` before `volume.read_at`
  unfoldable pub before_read : BlockAdapter B → ℕ → ℕ → Gate B
  before_read a lba count =
      if a.stopped then gate (some stopping) a else elim (checked_mul lba 512) [
        | none ↦ gate (some invalid_range) a
        | some o ↦ elim (checked_mul count 512) [
          | none ↦ gate (some invalid_range) a
          | some n ↦ gate none (record a { reads = fetch_add_one a.reads })
        ]
      ]

  -- `BlockAdapter::write` before `volume.write_at`
  unfoldable pub before_write : BlockAdapter B → ℕ → Gate B
  before_write a lba =
      if not (is_read_write (inner B a).image.mode)
      then gate (some Error.read_only) (count_write B a)
      else if a.stopped
      then gate (some stopping) (count_write B a)
      else elim (checked_mul lba 512) [
        | none ↦ gate (some invalid_range) (count_write B a)
        | some o ↦ gate none (count_write B a)
      ]

  -- `BlockAdapter::flush` before `volume.flush`
  unfoldable pub before_flush : BlockAdapter B → ℕ → ℕ → Gate B
  before_flush a lba count =
      if a.stopped then gate (some stopping) a else elim (checked_mul lba 512) [
        | none ↦ gate (some invalid_range) a
        | some o ↦
            if count == 0
            then (if leb o (inner B a).len
                then gate none (count_flush B a)
                else gate (some invalid_range) a)
            else if ltb (inner B a).len o || ltb ((inner B a).len - o) (count * 512)
            then gate (some invalid_range) a
            else gate none (count_flush B a)
      ]

  abbrev pub event_of : Callback → Reply B → Event
  event_of c r = record { callback = c; status = r.status; buffer = r.buffer }

  abbrev pub gated : Callback → Buffer → Gate B → Option Event × BlockAdapter B
  gated c buffer g = elim g.refusal [
    | none ↦ (none, g.adapter)
    | some e ↦
        (some (record { callback = c; status = ok (status_of e); buffer = buffer }), g.adapter)
  ]

  -- The callback up to its call on the volume: the whole reply, if there is no such call.
  unfoldable pub entry : BlockAdapter B → Callback → Option Event × BlockAdapter B
  entry a (Callback.read lba count buffer) =
      if bad_buffer count buffer
      then (some (event_of (Callback.read lba count buffer) (refused B buffer a)), a)
      else gated (Callback.read lba count buffer) (clear_blocks count (clear_blocks count buffer))
          (before_read a lba count)
  entry a (Callback.write lba count buffer) =
      if bad_buffer count buffer
      then (some (event_of (Callback.write lba count buffer) (refused B buffer a)), a)
      else gated (Callback.write lba count buffer) buffer (before_write a lba)
  entry a (Callback.control op lba count) =
      if op == 2
      then gated (Callback.control op lba count) none (before_flush a lba count)
      else (let r = if op == 3 then caught B none (Adapter.unmap B a) else refused B none a in
          (some (event_of (Callback.control op lba count) r), r.adapter))

  module _ (P : Libraries) where
    abbrev pub filled : Callback → ℕ → Buffer → Outcome (List ℕ) × BlockAdapter B → Work B
    filled c count buffer x = record {
      event = event_of c (fill B P count (clear_blocks count buffer) x);
      adapter = x.1;
      panicked = is_panic x.0;
    }

    abbrev pub ended : Callback → Buffer → Outcome (Unit {0}) × BlockAdapter B → Work B
    ended c buffer x = record {
      event = event_of c (caught B buffer x);
      adapter = x.1;
      panicked = is_panic x.0;
    }

    -- The call on the volume, from the lock to the reply or to the panic.
    unfoldable pub work : BlockAdapter B → Callback → Work B
    work a (Callback.read lba count buffer) =
        filled (Callback.read lba count buffer) count buffer
          (on_volume B a (λ v. Volume.read_at B P v (lba * 512) (count * 512)))
    work a (Callback.write lba count buffer) =
        ended (Callback.write lba count buffer) buffer
          (on_volume B a (λ v. Volume.write_at B P v (lba * 512) (blocks count buffer)))
    work a (Callback.control op lba count) =
        ended (Callback.control op lba count) none (on_volume B a (Volume.flush B))

-- A table of threads with one entry replaced.
abbrev pub update : (ℕ → Pc) → ℕ → Pc → ℕ → Pc
update f i p j = if i == j then p else f j

pub record System (B : Backend) : Type 0 where
  pub adapter : BlockAdapter B
  pub thread : ℕ → Pc
  pub history : List Event  -- the latest event first

module _ (B : Backend) (P : Libraries) where
  abbrev pub after_work : Work B → List Event → Pc
  after_work w from = if w.panicked then failed w.event from else replied w.event from

  -- The next step of any thread, or of the server beside them.
  pub data Step (s : System B) : System B → Type 0 where
    call :
        (i : ℕ) (c : Callback)
        → s.thread i ≡ idle
        → Step s (record s { thread = update s.thread i (invoked c s.history) })
    refuse :
        (i : ℕ) (c : Callback) (from : List Event) (e : Event)
        → s.thread i ≡ invoked c from
        → (entry B s.adapter c).0 ≡ some e
        → Step s (record {
          adapter = (entry B s.adapter c).1;
          thread = update s.thread i (replied e from);
          history = e ∷ s.history;
        })
    admit :
        (i : ℕ) (c : Callback) (from : List Event)
        → s.thread i ≡ invoked c from
        → (entry B s.adapter c).0 ≡ none
        → Step s (record s {
          adapter = (entry B s.adapter c).1;
          thread = update s.thread i (waiting c from);
        })
    locked :
        (i : ℕ) (c : Callback) (from : List Event)
        → s.thread i ≡ waiting c from
        → Step s (record {
          adapter = (work B P s.adapter c).adapter;
          thread = update s.thread i (after_work (work B P s.adapter c) from);
          history = (work B P s.adapter c).event ∷ s.history;
        })
    unwound :
        (i : ℕ) (e : Event) (from : List Event)
        → s.thread i ≡ failed e from
        → Step s (record s {
          adapter = mark_faulted B s.adapter;
          thread = update s.thread i (replied e from);
        })
    return :
        (i : ℕ) (e : Event) (from : List Event)
        → s.thread i ≡ replied e from
        → Step s (record s { thread = update s.thread i idle })
    mark : Step s (record s { adapter = mark_faulted B s.adapter })
    halt : Step s (record s { adapter = Adapter.stop B s.adapter })

  pub data Runs (s : System B) : System B → Type 0 where
    still : Runs s s
    then_step : {t u : System B} → Runs s t → Step t u → Runs s u
