-- ===== src/Adapter/Windows/Ends.antt =====
-- The loops of `serve` in src/adapter/windows.rs end.
use Prim.Native.Nat.{zero, suc}
use winluks.Base.{ℕ, ◌+◌, ◌*◌, ◌/◌, ◌≤◌, ◌≡◌, ◌≢◌, refl, Bool, true, false, arith, not, ◌&&◌, ◌==◌}
use winluks.Error.{Outcome, ok, err, panic, unfinished}
use winluks.Image.{AccessMode, is_read_write}
use winluks.Image.Os.{Backend}
use winluks.Image.Access.{sync-ne-unfinished}
use winluks.Probe.{Filesystem}
use winluks.Volume
use winluks.Volume.{ValidatedVolume, UnlockedVolume, flush_locked}
use winluks.Adapter
use winluks.Adapter.{BlockAdapter, Host, shutdown, new_adapter, inner}
use winluks.Adapter.Windows.Serve.{
  Shim, Server, with_quit, is_busy, discover, publish, give_up, session,
}
use winluks.Adapter.Windows.Serve.{
  discovery_rounds, serve_adapter, serve, close, after_publish, after_discover,
}

module _ (B : Backend) {W : Type 0} (S : Shim B W) where
  -- The clock does not go back, and a sleep lasts.
  pub record IsClock : Type 0 where
    pub time : Server B S → ℕ
    pub now-time : (s : Server B S) → (S.now s).0 ≡ time s
    pub now-later : (s : Server B S) → time s ≤ time (S.now s).1
    pub wl_error-later : (s : Server B S) → time s ≤ time (S.wl_error s).1
    pub wl_volume_ready-later : (s : Server B S) → time s ≤ time (S.wl_volume_ready s).1
    pub sleep-later : (s : Server B S) → time s + 100 ≤ time (S.sleep s)

  -- The server through pauses, a Ctrl+C that comes meanwhile being left alone.
  abbrev pub pauses : ℕ → Server B S → Server B S
  pauses zero s = s
  pauses (suc n) s = pauses n (S.sleep (S.wl_error s).1)

  -- Somebody who presses Ctrl+C in any `count` pauses in a row, and leaves no file open that blocks
  -- the close. The handler of Ctrl+C only sets the flag, so asking for an error does not clear it.
  pub record IsAttended : Type 0 where
    pub count : ℕ
    pub pressed : (s : Server B S) → (pauses count s).outside.quit ≡ true
    pub wl_error-quit :
        (s : Server B S) → s.outside.quit ≡ true → (S.wl_error s).1.outside.quit ≡ true
    pub unblocked :
        (s : Server B S) → let x = S.wl_lock_and_dismount s in (x.1 == 1 && is_busy x.0) ≡ false

  module _ (clock : IsClock) where
    -- The wait for the volume ends by its deadline: with a round of fuel for every 100 ms up to it
    -- and one more, the loop does not run out, if the clock does not go back and a pause lasts its
    -- 100 ms.
    pub discover-ne-unfinished :
        (fuel deadline ready : ℕ) (s : Server B S)
        → deadline ≤ clock.time s + 100 * fuel
        → (discover B S (suc fuel) deadline ready s).0 ≢ unfinished
    unfolding discover
    discover-ne-unfinished zero deadline ready s h = ground (arith, clock.now-time s)
    discover-ne-unfinished (suc fuel) deadline ready s h =
        let t = (S.now s).1 in
        let u = (S.wl_error t).1 in
        let v = S.sleep u in
        let w = (S.wl_volume_ready v).1 in
        ground (
          arith,
          clock.now-later s,
          clock.wl_error-later t,
          clock.sleep-later u,
          clock.wl_volume_ready-later v,
          discover-ne-unfinished fuel deadline (S.wl_volume_ready v).0 w,
        )

  module _ (attended : IsAttended) where
    publish-quits :
        (n : ℕ) (read_only : Bool) (s : Server B S)
        → (pauses n s).outside.quit ≡ true
        → (publish B S (suc n) read_only s).0 ≢ unfinished
    unfolding publish
    publish-quits zero read_only s h =
        let t = (S.wl_error s).1 in
        ground (arith, attended.wl_error-quit s h, attended.unblocked (with_quit B S false t))
    publish-quits (suc n) read_only s h =
        let t = (S.wl_error s).1 in
        ground (
          arith,
          attended.unblocked (with_quit B S false t),
          publish-quits n read_only (S.sleep t) h,
        )

  flush-ne-unfinished :
      (a : BlockAdapter B) (lba count : ℕ) → (Adapter.flush B a lba count).0 ≢ unfinished
  unfolding Adapter.flush Volume.flush flush_locked
  flush-ne-unfinished a lba count = ground (arith, sync-ne-unfinished B (inner B a).image)

  close-ne-unfinished :
      (read_only : Bool) (ready : ℕ) (clean : Bool) (s : Server B S)
      → (close B S read_only ready clean s).0 ≢ unfinished
  unfolding shutdown
  close-ne-unfinished read_only ready clean s = ground (arith, flush-ne-unfinished s.adapter 0 0)

  module _ (clock : IsClock) (attended : IsAttended) where
    after_publish-ne-unfinished :
        (read_only : Bool) (x : Outcome Bool × Server B S)
        → x.0 ≢ unfinished
        → (after_publish B S read_only x).0 ≢ unfinished
    after_publish-ne-unfinished read_only (ok clean, s) n = close-ne-unfinished read_only 0 clean s
    after_publish-ne-unfinished read_only (err e, s) n = λ q. cc
    after_publish-ne-unfinished read_only (panic, s) n = λ q. cc
    after_publish-ne-unfinished read_only (unfinished, s) n = λ q. n refl

    after_discover-ne-unfinished :
        (read_only : Bool) (x : Outcome ℕ × Server B S)
        → x.0 ≢ unfinished
        → (after_discover B S (suc attended.count) read_only x).0 ≢ unfinished
    after_discover-ne-unfinished read_only (ok ready, s) n =
        let (clean, t) = give_up B S read_only s in
        ground (
          arith,
          after_publish-ne-unfinished read_only (publish B S (suc attended.count) read_only s)
              (publish-quits attended attended.count read_only s (attended.pressed s)),
          close-ne-unfinished read_only ready clean t,
        )
    after_discover-ne-unfinished read_only (err e, s) n = λ q. cc
    after_discover-ne-unfinished read_only (panic, s) n = λ q. cc
    after_discover-ne-unfinished read_only (unfinished, s) n = λ q. n refl

    session-ne-unfinished :
        (read_only : Bool) (s : Server B S)
        → (session B S (suc attended.count) read_only s).0 ≢ unfinished
    unfolding session
    session-ne-unfinished read_only s =
        let t = (S.now s).1 in
        let u = (S.wl_volume_ready t).1 in
        let deadline = (S.now s).0 + 30000 in
        let ready = (S.wl_volume_ready t).0 in
        after_discover-ne-unfinished read_only (discover B S discovery_rounds deadline ready u) (
          discover-ne-unfinished clock 300 deadline ready u
            (omega (arith, clock.now-time s, clock.now-later s, clock.wl_volume_ready-later t)))

    -- `serve` ends, with one round of fuel more than the pauses in a row within which Ctrl+C is
    -- always pressed, whether or not the driver's session ever reports an error, if no dismount is
    -- blocked by open files, asking for an error does not clear the flag of Ctrl+C, the clock does
    -- not go back, a pause lasts its 100 ms and the check of the consumer ends.
    pub serve-ne-unfinished :
        (check : Filesystem → AccessMode → Outcome (Unit {0})) (v : ValidatedVolume B) (w : W)
        → check v.filesystem v.volume.image.mode ≢ unfinished
        → (serve B S check (suc attended.count) v w).0 ≢ unfinished
    unfolding serve serve_adapter
    serve-ne-unfinished check v w n =
        let s : Server B S = record {
          adapter = new_adapter B v;
          outside = record { world = w; quit = false };
        } in
        let read_only = not (is_read_write v.volume.image.mode) in
        let t = (S.set_handler s).1 in
        let u = (S.create ((inner B t.adapter).len / 512) read_only t).1 in
        ground (arith, session-ne-unfinished read_only u)
