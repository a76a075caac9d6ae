-- ===== src/Adapter/Windows/Threads/Broken.antt =====
-- After a fault or a poisoned lock no thread of src/adapter/windows.rs acknowledges a callback.
use winluks.Base.{ℕ, ◌*◌, ◌≡◌, ◌≢◌, inl, refl, ap, List, [], ◌∷◌, ◌++◌, arith, none}
use winluks.Base.Contents.{Contents}
use winluks.Error.{Outcome, ok, err, panic, unfinished, writeback_failed}
use winluks.Image.Os.{Backend}
use winluks.Crypto.Primitives.{Libraries}
use winluks.Volume
use winluks.Volume.{UnlockedVolume}
use winluks.Volume.Faults.{IsBroken, read_at_broken, write_at-IsBroken, flush_broken}
use winluks.Adapter
use winluks.Adapter.{BlockAdapter, inner, mark_faulted, on_volume}
use winluks.Adapter.Windows.Callbacks.{Buffer, blocks, status_of}
use winluks.Adapter.Windows.Reach.{Callback, Event}
use winluks.Adapter.Windows.Buffers.{status_of-suc}
use winluks.Adapter.Windows.Sticky.{NoneDone}
use winluks.Adapter.Windows.Threads.{
  System, work, ended, filled, Step, call, refuse, admit, locked, unwound, return, mark, halt, Runs,
  still, then_step,
}
use winluks.Adapter.Windows.Threads.Works.{entry-IsIdle, entry-inner}

-- Which disk is left open: nothing here depends on it.
abbrev plain : Contents
plain i = 0

module _ (B : Backend) (P : Libraries) where
  filled-denied :
      (c : Callback) (count : ℕ) (buffer : Buffer) (x : Outcome (List ℕ) × BlockAdapter B)
      → x.0 ≡ err writeback_failed
      → (filled B P c count buffer x).event.status ≢ ok 0
  unfolding status_of
  filled-denied c count buffer (r, b) e = ground (arith, e)

  ended-denied :
      (c : Callback) (buffer : Buffer) (x : Outcome (Unit {0}) × BlockAdapter B)
      → x.0 ≢ ok tt
      → (ended B P c buffer x).event.status ≢ ok 0
  ended-denied c buffer (ok _, b) n = absurd (n refl)
  ended-denied c buffer (err e, b) n = let s = status_of-suc e in λ q. ground (arith, s.1)
  ended-denied c buffer (panic, b) n = λ q. absurd (ground arith)
  ended-denied c buffer (unfinished, b) n = λ q. cc

  work-IsBroken :
      (a : BlockAdapter B) (c : Callback)
      → IsBroken (inner B a)
      → IsBroken (inner B (work B P a c).adapter) × ((work B P a c).event.status ≢ ok 0)
  unfolding work
  work-IsBroken a (Callback.read lba count buffer) b =
      let r = read_at_broken B P (inner B a) b (lba * 512) (count * 512) in
      (
        record { broken = inl r.1 },
        filled-denied (Callback.read lba count buffer) count buffer
            (on_volume B a (λ v. Volume.read_at B P v (lba * 512) (count * 512))) r.0,
      )
  work-IsBroken a (Callback.write lba count buffer) b =
      let w = write_at-IsBroken B P (inner B a) b (lba * 512) (blocks count buffer) in
      (
        w.1,
        ended-denied (Callback.write lba count buffer) buffer
            (on_volume B a (λ v. Volume.write_at B P v (lba * 512) (blocks count buffer))) w.0,
      )
  work-IsBroken a (Callback.control op lba count) b =
      let f = flush_broken B P (inner B a) b in
      (
        record { broken = inl f.1 },
        ended-denied (Callback.control op lba count) none (on_volume B a (Volume.flush B))
            (λ q. cc (f.0, q)),
      )

  -- What came after the earlier history, and none of it acknowledged.
  abbrev pub SilentSince : List Event → List Event → Type 0
  SilentSince from history = (newer : List Event) × (history ≡ newer ++ from) × NoneDone newer

  SilentSince-cons :
      {from history : List Event} (e : Event)
      → e.status ≢ ok 0
      → SilentSince from history
      → SilentSince from (e ∷ history)
  SilentSince-cons e d (newer, q, none_done) = (e ∷ newer, ap (λ h. e ∷ h) q, (d, none_done))

  Step-SilentSince :
      {s t : System B} (from : List Event)
      → Step B P s t
      → IsBroken (inner B s.adapter)
      → SilentSince from s.history
      → IsBroken (inner B t.adapter) × SilentSince from t.history
  unfolding Adapter.stop
  Step-SilentSince from (call i c q) b h = (b, h)
  Step-SilentSince {s} from (refuse i c f e q r) b h = (
    rw (entry-inner B plain s.adapter c) b,
    SilentSince-cons e (entry-IsIdle B plain s.adapter c e r).denied h,
  )
  Step-SilentSince {s} from (admit i c f q r) b h = (rw (entry-inner B plain s.adapter c) b, h)
  Step-SilentSince {s} from (locked i c f q) b h =
      let w = work-IsBroken s.adapter c b in
      (w.0, SilentSince-cons (work B P s.adapter c).event w.1 h)
  Step-SilentSince from (unwound i e f q) b h = (record { broken = inl refl }, h)
  Step-SilentSince from (return i e f q) b h = (b, h)
  Step-SilentSince from mark b h = (record { broken = inl refl }, h)
  Step-SilentSince from halt b h = (record { broken = b.broken }, h)

  -- Once the volume is faulted or its lock poisoned, it stays so, and no callback of any thread
  -- that counts from then on is acknowledged, not even one that had passed its tests before.
  pub Runs-SilentSince :
      {s t : System B}
      → IsBroken (inner B s.adapter)
      → Runs B P s t
      → IsBroken (inner B t.adapter) × SilentSince s.history t.history
  Runs-SilentSince b still = (b, ([], refl, tt))
  Runs-SilentSince {s} b (then_step r d) =
      let before = Runs-SilentSince b r in Step-SilentSince s.history d before.0 before.1
