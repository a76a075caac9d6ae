-- ===== src/Adapter/Windows/Driven.antt =====
-- The steps of `serve` in src/adapter/windows.rs reach the adapter as a history of events.
use Prim.Native.Nat.{zero, suc}
use winluks.Base.{ℕ, ◌≡◌, ◌≢◌, Bool, false, List, ◌++◌, arith}
use winluks.Error.{ok, panic}
use winluks.Image.Os.{Backend}
use winluks.Crypto.Primitives.{Libraries}
use winluks.Adapter
use winluks.Adapter.{BlockAdapter, Host, inner, new_adapter, mark_faulted, shutdown}
use winluks.Adapter.Windows.Reach.{Event, Reaches, start, called, marked, flushed, halted}
use winluks.Adapter.Windows.Serve.{Shim, Server, with_quit, discover, publish}

module _ (B : Backend) (P : Libraries) where
  Reaches-trans :
      {a b c : BlockAdapter B} {es fs : List Event}
      → Reaches B P a es b
      → Reaches B P b fs c
      → Reaches B P a (fs ++ es) c
  Reaches-trans r start = r
  Reaches-trans r (called s c) = called (Reaches-trans r s) c
  Reaches-trans r (marked s) = marked (Reaches-trans r s)
  Reaches-trans r (flushed s lba count n) = flushed (Reaches-trans r s) lba count n
  Reaches-trans r (halted s) = halted (Reaches-trans r s)

  -- The second adapter is reached from the first one, by some history.
  pub record Follows (a b : BlockAdapter B) : Type 0 where
    pub history : List Event
    pub reached : Reaches B P a history b

  pub Follows-trans : {a b c : BlockAdapter B} → Follows a b → Follows b c → Follows a c
  Follows-trans f g = record {
    history = g.history ++ f.history;
    reached = Reaches-trans f.reached g.reached;
  }

  Follows-mark_faulted : {a b : BlockAdapter B} → Follows a b → Follows a (mark_faulted B b)
  Follows-mark_faulted f = record { history = f.history; reached = marked f.reached }

  module _ {W : Type 0} (S : Shim B W) where
    -- The driver reaches the adapter by its callbacks alone.
    pub record IsDriver : Type 0 where
      pub set_handler-Follows : (s : Server B S) → Follows s.adapter (S.set_handler s).1.adapter
      pub create-Follows :
          (n : ℕ) (read_only : Bool) (s : Server B S)
          → Follows s.adapter (S.create n read_only s).1.adapter
      pub wl_error-Follows : (s : Server B S) → Follows s.adapter (S.wl_error s).1.adapter
      pub wl_close-Follows : (s : Server B S) → Follows s.adapter (S.wl_close s).1.adapter
      pub wl_volume_ready-Follows :
          (s : Server B S) → Follows s.adapter (S.wl_volume_ready s).1.adapter
      pub wl_lock_and_dismount-Follows :
          (s : Server B S) → Follows s.adapter (S.wl_lock_and_dismount s).2.adapter
      pub now-Follows : (s : Server B S) → Follows s.adapter (S.now s).1.adapter
      pub sleep-Follows : (s : Server B S) → Follows s.adapter (S.sleep s).adapter

    module _ (D : IsDriver) (a : BlockAdapter B) where
      pub discover-Follows :
          (fuel deadline ready : ℕ) (s : Server B S)
          → Follows a s.adapter
          → Follows a (discover B S fuel deadline ready s).1.adapter
      unfolding discover
      discover-Follows zero deadline ready s f = f
      discover-Follows (suc fuel) deadline ready s f =
          let t = (S.now s).1 in
          let u = (S.wl_error t).1 in
          let v = S.sleep u in
          let w = (S.wl_volume_ready v).1 in
          let ft = Follows-trans f (D.now-Follows s) in
          let fu = Follows-trans ft (D.wl_error-Follows t) in
          let fv = Follows-trans fu (D.sleep-Follows u) in
          let fw = Follows-trans fv (D.wl_volume_ready-Follows v) in
          ground (arith, f, ft, fu, discover-Follows fuel deadline (S.wl_volume_ready v).0 w fw)

      pub publish-Follows :
          (fuel : ℕ) (read_only : Bool) (s : Server B S)
          → Follows a s.adapter
          → Follows a (publish B S fuel read_only s).1.adapter
      unfolding publish
      publish-Follows zero read_only s f = f
      publish-Follows (suc fuel) read_only s f =
          let t = (S.wl_error s).1 in
          let q = with_quit B S false t in
          let u = (S.wl_lock_and_dismount q).2 in
          let ft = Follows-trans f (D.wl_error-Follows s) in
          let fu = Follows-trans ft (D.wl_lock_and_dismount-Follows q) in
          let fm = Follows-mark_faulted fu in
          ground (
            arith,
            ft,
            fu,
            fm,
            publish-Follows fuel read_only (S.sleep t) (Follows-trans ft (D.sleep-Follows t)),
            publish-Follows fuel false (S.sleep u) (Follows-trans fu (D.sleep-Follows u)),
          )

      -- The adapter once its final flush is done and it is stopped: the transport drains from here.
      abbrev pub halted_of : Server B S → BlockAdapter B
      halted_of s = Adapter.stop B (Adapter.flush B s.adapter 0 0).1

      halted-Follows :
          (s : Server B S)
          → (Adapter.flush B s.adapter 0 0).0 ≢ panic
          → (f : Follows a s.adapter) → Reaches B P a f.history (halted_of s)
      halted-Follows s n f = halted (flushed f.reached 0 0 n)

      -- A shutdown that reports something: the history before it goes on while the transport drains.
      pub record IsShut (s t : Server B S) : Type 0 where
        pub before : Follows a s.adapter
        pub stopped : Reaches B P a before.history (halted_of s)
        pub drained : Follows (halted_of s) t.adapter

      pub shutdown-IsShut :
          (s : Server B S) (failed : Bool)
          → (shutdown B s S.wl_close).0 ≡ ok failed
          → Follows a s.adapter
          → IsShut s (shutdown B s S.wl_close).1
      unfolding shutdown
      shutdown-IsShut s failed e f = record {
        before = f;
        stopped = halted-Follows s (λ p. absurd (ground (arith, p))) f;
        drained = ground (arith, D.wl_close-Follows (record s { adapter = halted_of s }));
      }

      -- The whole history of a session that was shut.
      pub shut-Reaches :
          {s t : Server B S} (h : IsShut s t)
          → Reaches B P a (h.drained.history ++ h.before.history) t.adapter
      shut-Reaches h = Reaches-trans h.stopped h.drained.reached
