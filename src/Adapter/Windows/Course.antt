-- ===== src/Adapter/Windows/Course.antt =====
-- The states of `serve` in src/adapter/windows.rs, from one call of the driver's session to the next.
use Prim.Native.Nat.{zero, suc}
use winluks.Base.{ℕ, Bool, false, [], arith}
use winluks.Image.Os.{Backend}
use winluks.Crypto.Primitives.{Libraries}
use winluks.Adapter.Windows.Serve.{Shim, Server, with_quit, discover}
use winluks.Adapter.Windows.Reach.{start}
use winluks.Adapter.Windows.Driven.{Follows, Follows-trans, IsDriver}

module _ (B : Backend) {W : Type 0} (S : Shim B W) where
  -- A state that the calls of a session have led to, with the flag of Ctrl+C cleared in
  -- between. A dismount is `tried`, whatever it answers.
  pub data Course (first : Server B S) : Server B S → Type 0 where
    begun : Course first first
    handled : {s : Server B S} → Course first s → Course first (S.set_handler s).1
    created :
        {s : Server B S} (n : ℕ) (read_only : Bool)
        → Course first s
        → Course first (S.create n read_only s).1
    timed : {s : Server B S} → Course first s → Course first (S.now s).1
    polled : {s : Server B S} → Course first s → Course first (S.wl_error s).1
    looked : {s : Server B S} → Course first s → Course first (S.wl_volume_ready s).1
    paused : {s : Server B S} → Course first s → Course first (S.sleep s)
    cleared : {s : Server B S} → Course first s → Course first (with_quit B S false s)
    tried : {s : Server B S} → Course first s → Course first (S.wl_lock_and_dismount s).2

  pub discover-Course :
      {first : Server B S} (fuel deadline ready : ℕ) (s : Server B S)
      → Course first s
      → Course first (discover B S fuel deadline ready s).1
  unfolding discover
  discover-Course zero deadline ready s c = c
  discover-Course (suc fuel) deadline ready s c =
      let t = (S.now s).1 in
      let u = (S.wl_error t).1 in
      let v = S.sleep u in
      let ct = timed c in
      let cu = polled ct in
      let w = (S.wl_volume_ready v).1 in
      let again = (S.wl_volume_ready v).0 in
      ground (arith, c, ct, cu, discover-Course fuel deadline again w (looked (paused cu)))

  module _ (P : Libraries) (D : IsDriver B P S) where
    pub Course-Follows :
        {first s : Server B S} → Course first s → Follows B P first.adapter s.adapter
    Course-Follows begun = record { history = []; reached = start }
    Course-Follows (handled {s} c) = Follows-trans B P (Course-Follows c) (D.set_handler-Follows s)
    Course-Follows (created {s} n read_only c) =
        Follows-trans B P (Course-Follows c) (D.create-Follows n read_only s)
    Course-Follows (timed {s} c) = Follows-trans B P (Course-Follows c) (D.now-Follows s)
    Course-Follows (polled {s} c) = Follows-trans B P (Course-Follows c) (D.wl_error-Follows s)
    Course-Follows (looked {s} c) =
        Follows-trans B P (Course-Follows c) (D.wl_volume_ready-Follows s)
    Course-Follows (paused {s} c) = Follows-trans B P (Course-Follows c) (D.sleep-Follows s)
    Course-Follows (cleared c) = Course-Follows c
    Course-Follows (tried {s} c) =
        Follows-trans B P (Course-Follows c) (D.wl_lock_and_dismount-Follows s)
