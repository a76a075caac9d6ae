-- ===== src/Adapter/Windows/Threads/Alone.antt =====
-- A callback of src/adapter/windows.rs that no other thread interrupts, step by step.
use winluks.Base.{◌≡◌, none, some, if◌then◌else◌, arith}
use winluks.Image.Os.{Backend}
use winluks.Crypto.Primitives.{Libraries}
use winluks.Adapter
use winluks.Adapter.{BlockAdapter, inner, mark_faulted}
use winluks.Adapter.Windows.Callbacks.{read_request, write_request, control_request}
use winluks.Adapter.Windows.Reach.{Callback, Event, call}
use winluks.Adapter.Windows.Threads.{Work, entry, work, before_read, before_write, before_flush}

module _ (B : Backend) (P : Libraries) where
  -- The mark of a panic.
  abbrev unwound_work : Work B → Event × BlockAdapter B
  unwound_work w = (w.event, if w.panicked then mark_faulted B w.adapter else w.adapter)

  -- All the steps of one callback, in order.
  abbrev pub alone : BlockAdapter B → Callback → Event × BlockAdapter B
  alone a c =
      let (r, b) = entry B a c in elim r [ some e ↦ (e, b) | none ↦ unwound_work (work B P b c) ]

  -- A thread that no other one interrupts does in its steps what the callback does in one: the
  -- same status, the same buffer and the same adapter afterwards.
  pub alone-call :
      (a : BlockAdapter B) (c : Callback)
      → let r = call B P a c in
        alone a c ≡ (record { callback = c; status = r.status; buffer = r.buffer }, r.adapter)
  unfolding call entry work read_request write_request control_request before_read before_write
      before_flush Adapter.read Adapter.write Adapter.flush
  alone-call a (Callback.read lba count buffer) = ground arith
  alone-call a (Callback.write lba count buffer) = ground arith
  alone-call a (Callback.control op lba count) = ground arith
