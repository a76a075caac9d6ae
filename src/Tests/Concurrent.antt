-- ===== src/Tests/Concurrent.antt =====
-- Two threads that serve a write and a read of the same block at once.
use winluks.Base.{ℕ, ◌⊎◌, refl, inl, [], ◌∷◌}
use winluks.Image.{AccessMode}
use winluks.Image.Memory.{memory, memory-IsFile, memory-IsPatient}
use winluks.Volume.Payload.{Shows}
use winluks.Volume.Faults.{IsBroken}
use winluks.Adapter.{BlockAdapter, inner, mark_faulted}
use winluks.Adapter.Windows.Reach.{AllTell, disk_of}
use winluks.Adapter.Windows.Threads.{
  System, Runs, Pc, Step, entry, work, after_work, update, before_write,
}
use winluks.Adapter.Windows.Threads.Timely.{IsTimely}
use winluks.Adapter.Windows.Threads.Linear.{Runs-AllTell}
use winluks.Adapter.Windows.Threads.Broken.{SilentSince, Runs-SilentSince}
use winluks.Tests.World.{
  libraries, libraries-IsCipher, shown, volume-IsPlaced, volume-Shows, adapter,
}
use winluks.Tests.Serving.{block_write, block_read}

abbrev begin : BlockAdapter memory → System memory
begin a = record { adapter = a; thread = λ i. Pc.idle; history = [] }

-- The write is called first, and the read passes its tests while the write waits.
abbrev both_called : System memory
both_called = record {
  adapter = adapter AccessMode.read_write;
  thread =
      update (update (λ i. Pc.idle) 0 (Pc.invoked block_write [])) 1 (Pc.invoked block_read []);
  history = [];
}

calling : Runs memory libraries (begin (adapter AccessMode.read_write)) both_called
calling =
    Runs.then_step (Runs.then_step Runs.still (Step.call 0 block_write refl))
      (Step.call 1 block_read refl)

abbrev admitted : System memory
admitted = record {
  adapter = (entry memory (adapter AccessMode.read_write) block_write).1;
  thread = update both_called.thread 0 (Pc.waiting block_write []);
  history = [];
}

abbrev served : System memory
served = record {
  adapter = (work memory libraries admitted.adapter block_write).adapter;
  thread =
      update admitted.thread 0
        (after_work memory libraries (work memory libraries admitted.adapter block_write) []);
  history = (work memory libraries admitted.adapter block_write).event ∷ [];
}

serving : Runs memory libraries (begin (adapter AccessMode.read_write)) served
unfolding entry before_write
serving =
    Runs.then_step (Runs.then_step calling (Step.admit 0 block_write [] refl refl))
      (Step.locked 0 block_write [] refl)

Runs-AllTell_example :
    AllTell shown served.history
    × (Shows memory-IsFile libraries (inner memory served.adapter) (disk_of shown served.history)
        ⊎ IsBroken (inner memory served.adapter))
    × ((i : ℕ) → IsTimely served.history (served.thread i))
Runs-AllTell_example =
    Runs-AllTell memory memory-IsFile memory-IsPatient libraries libraries-IsCipher shown
      (adapter AccessMode.read_write) (volume-IsPlaced AccessMode.read_write)
      (volume-Shows AccessMode.read_write) serving

abbrev broken : BlockAdapter memory
broken = mark_faulted memory (adapter AccessMode.read_write)

-- The write that is called then is admitted, is denied, and counts.
abbrev broken_called : System memory
broken_called = record {
  adapter = broken;
  thread = update (λ i. Pc.idle) 0 (Pc.invoked block_write []);
  history = [];
}

abbrev broken_admitted : System memory
broken_admitted = record {
  adapter = (entry memory broken block_write).1;
  thread = update broken_called.thread 0 (Pc.waiting block_write []);
  history = [];
}

abbrev broken_served : System memory
broken_served = record {
  adapter = (work memory libraries broken_admitted.adapter block_write).adapter;
  thread =
      update broken_admitted.thread 0 (
        after_work memory libraries (work memory libraries broken_admitted.adapter block_write) []);
  history = (work memory libraries broken_admitted.adapter block_write).event ∷ [];
}

denying : Runs memory libraries (begin broken) broken_served
unfolding entry before_write
denying =
    Runs.then_step
      (Runs.then_step (Runs.then_step Runs.still (Step.call 0 block_write refl))
        (Step.admit 0 block_write [] refl refl))
      (Step.locked 0 block_write [] refl)

Runs-SilentSince_example :
    IsBroken (inner memory broken_served.adapter)
    × SilentSince memory libraries [] broken_served.history
Runs-SilentSince_example =
    Runs-SilentSince memory libraries {s = begin broken} (record { broken = inl refl }) denying
