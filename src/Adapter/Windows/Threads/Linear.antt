-- ===== src/Adapter/Windows/Threads/Linear.antt =====
-- Threads of callbacks of src/adapter/windows.rs against a plain disk: each callback counts at one
-- moment between its call and its reply.
use winluks.Base.{ℕ, ◌≡◌, ◌⊎◌, inl, inr, refl, true, false, List, [], ◌∷◌}
use winluks.Base.{Bool, if◌then◌else◌}
use winluks.Base.Contents.{Contents}
use winluks.Image.Os.{Backend, IsFile, IsPatient}
use winluks.Crypto.Primitives.{Libraries, IsCipher}
use winluks.Volume.Payload.{IsPlaced, Shows}
use winluks.Volume.Faults.{IsBroken}
use winluks.Adapter
use winluks.Adapter.{BlockAdapter, inner, mark_faulted, on_volume}
use winluks.Adapter.Windows.Reach.{Event, Tells, AllTell, disk_after, disk_of}
use winluks.Adapter.Windows.Threads.{
  Pc, idle, invoked, waiting, failed, replied, System, update, entry, work, after_work, Step, call,
  refuse, admit, locked, unwound, return, mark, halt, Runs, still, then_step,
}
use winluks.Adapter.Windows.Threads.Works.{InDisk, entry-IsIdle, entry-inner, work-IsWork}
use winluks.Adapter.Windows.Threads.Timely.{
  Since, IsTimely, Since-now, IsTimely-cons, IsTimely-update,
}

module _ (B : Backend) (L : IsFile B) (patient : IsPatient B) (P : Libraries) (C : IsCipher P)
    (disk : Contents) where
  -- What every state of the threads keeps.
  record IsLinear (s : System B) : Type 0 where
    told : AllTell disk s.history
    holds : InDisk B L patient P C s.adapter (disk_of disk s.history)
    timely : (i : ℕ) → IsTimely s.history (s.thread i)

  -- An event is added, and its thread goes on.
  add-IsLinear :
      (s : System B) (i : ℕ) (e : Event) (p : Pc) (b : BlockAdapter B)
      → IsLinear s
      → Tells (disk_of disk s.history) e.callback e.status e.buffer
      → InDisk B L patient P C b (disk_after (disk_of disk s.history) e.callback e.status)
      → IsTimely (e ∷ s.history) p
      → IsLinear (record { adapter = b; thread = update s.thread i p; history = e ∷ s.history })
  add-IsLinear s i e p b l tells holds now = record {
    told = (tells, l.told);
    holds = holds;
    timely =
        IsTimely-update (e ∷ s.history) s.thread i p now
          (λ j. IsTimely-cons s.history e (s.thread j) (l.timely j));
  }

  -- A thread goes on without an event.
  go-IsLinear :
      (s : System B) (i : ℕ) (p : Pc) (b : BlockAdapter B)
      → IsLinear s
      → InDisk B L patient P C b (disk_of disk s.history)
      → IsTimely s.history p
      → IsLinear (record { adapter = b; thread = update s.thread i p; history = s.history })
  go-IsLinear s i p b l holds now = record {
    told = l.told;
    holds = holds;
    timely = IsTimely-update s.history s.thread i p now l.timely;
  }

  mark_faulted-InDisk :
      (b : BlockAdapter B) (d : Contents)
      → InDisk B L patient P C b d
      → InDisk B L patient P C (mark_faulted B b) d
  mark_faulted-InDisk b d h = record {
    placed = record {
      whole = h.placed.whole;
      inside = h.placed.inside;
      addressable = h.placed.addressable;
    };
    state = inr (record { broken = inl refl });
  }

  IsTimely-at : (s : System B) (i : ℕ) (p : Pc) → IsLinear s → s.thread i ≡ p → IsTimely s.history p
  IsTimely-at s i p l q = rw q at (l.timely i)

  Step-IsLinear : {s t : System B} → Step B P s t → IsLinear s → IsLinear t
  unfolding Adapter.stop
  Step-IsLinear {s} (call i c q) l =
      go-IsLinear s i (invoked c s.history) s.adapter l l.holds ([], refl)
  Step-IsLinear {s} (refuse i c from e q r) l =
      let idle = entry-IsIdle B (disk_of disk s.history) s.adapter c e r in
      add-IsLinear s i e (replied e from) (entry B s.adapter c).1 l idle.tells
        (rw (idle.kept, entry-inner B (disk_of disk s.history) s.adapter c) l.holds)
        (Since-now e (IsTimely-at s i (invoked c from) l q))
  Step-IsLinear {s} (admit i c from q r) l =
      go-IsLinear s i (waiting c from) (entry B s.adapter c).1 l
        (rw (entry-inner B (disk_of disk s.history) s.adapter c) l.holds)
        (IsTimely-at s i (invoked c from) l q)
  Step-IsLinear {s} (locked i c from q) l =
      let w = work B P s.adapter c in
      let done = work-IsWork B L patient P C s.adapter c (disk_of disk s.history) l.holds in
      let since = Since-now w.event (IsTimely-at s i (waiting c from) l q) in
      add-IsLinear s i w.event (after_work B P w from) w.adapter l done.tells done.holds
        (by_panic w.panicked since)
    where
      by_panic :
          {history from : List Event} {e : Event} (b : Bool)
          → Since history from e
          → IsTimely history (if b then failed e from else replied e from)
      by_panic true since = since
      by_panic false since = since
  Step-IsLinear {s} (unwound i e from q) l =
      go-IsLinear s i (replied e from) (mark_faulted B s.adapter) l
        (mark_faulted-InDisk s.adapter (disk_of disk s.history) l.holds)
        (IsTimely-at s i (failed e from) l q)
  Step-IsLinear {s} (return i e from q) l = go-IsLinear s i idle s.adapter l l.holds tt
  Step-IsLinear {s} mark l = record {
    told = l.told;
    holds = mark_faulted-InDisk s.adapter (disk_of disk s.history) l.holds;
    timely = l.timely;
  }
  Step-IsLinear {s} halt l = record { told = l.told; holds = l.holds; timely = l.timely }

  Runs-IsLinear : {s t : System B} → Runs B P s t → IsLinear s → IsLinear t
  Runs-IsLinear still l = l
  Runs-IsLinear (then_step r d) l = Step-IsLinear d (Runs-IsLinear r l)

  -- Callbacks of any number of threads, interleaved with each other and with stops and faults of
  -- the server, are linearizable: each counts at one point between its call and its reply, and in
  -- the order of these points every read of status 0 has put into its buffer what a plain disk
  -- with exactly the writes acknowledged before it holds, and a read of any other final status has
  -- left no byte of the volume there. At the end the volume shows that disk, or the session is
  -- broken for good. It holds from a state without calls under way whose volume has its payload in
  -- whole sectors inside the image and shows the disk, over a backend that behaves as a file and
  -- of which the interruptions end, and a cipher that decrypts what it encrypted.
  pub Runs-AllTell :
      (a : BlockAdapter B) {s : System B}
      → IsPlaced (inner B a)
      → Shows L P (inner B a) disk
      → Runs B P (record { adapter = a; thread = λ i. idle; history = [] }) s
      → AllTell disk s.history
        × (Shows L P (inner B s.adapter) (disk_of disk s.history) ⊎ IsBroken (inner B s.adapter))
        × ((i : ℕ) → IsTimely s.history (s.thread i))
  Runs-AllTell a placed shows r =
      let l = Runs-IsLinear r (record {
        told = tt;
        holds = record { placed = placed; state = inl shows };
        timely = λ i. tt;
      }) in
      (l.told, l.holds.state, l.timely)
