-- ===== src/Adapter/Windows/Serve.antt =====
-- `serve` of src/adapter/windows.rs. The driver's session, the signal handler and the clock are the
-- parameter `Shim`; between any two of its own steps the driver may make callbacks.
use Prim.Native.Nat.{zero, suc}
use winluks.Base.{ℕ, ◌+◌, ◌/◌, Bool, true, false, not, ltb, ◌==◌, ◌!=◌, ◌||◌, ◌&&◌}
use winluks.Base.{if◌then◌else◌}
use winluks.Error.{device_publish_failed, unclean_close, volume_discovery_failed}
use winluks.Error.{Outcome, ok, err, panic, unfinished}
use winluks.Image.Os.{Backend}
use winluks.Image.{AccessMode, is_read_write}
use winluks.Probe.{Filesystem}
use winluks.Volume.{ValidatedVolume}
use winluks.Adapter.{Host, inner, new_adapter, mark_faulted, shutdown}

-- What lies outside the adapter: the world, and the flag that Ctrl+C sets.
pub record Outside (W : Type 0) : Type 0 where
  pub world : W
  pub quit : Bool

-- The calls of `serve` on the native session and on the system. Each of them may change the world,
-- let callbacks through to the adapter, and find that Ctrl+C was pressed.
pub record Shim (B : Backend) (W : Type 0) : Type 0 where
  -- `ctrlc::set_handler` succeeds
  pub set_handler : Host B (Outside W) → Bool × Host B (Outside W)
  -- `wl_create`, of the number of blocks and whether they are read-only
  pub create : ℕ → Bool → Host B (Outside W) → ℕ × Host B (Outside W)
  pub wl_error : Host B (Outside W) → ℕ × Host B (Outside W)
  pub wl_close : Host B (Outside W) → ℕ × Host B (Outside W)
  pub wl_volume_ready : Host B (Outside W) → ℕ × Host B (Outside W)
  -- the code and the phase
  pub wl_lock_and_dismount : Host B (Outside W) → ℕ × ℕ × Host B (Outside W)
  -- `Instant::now()`, in milliseconds
  pub now : Host B (Outside W) → ℕ × Host B (Outside W)
  -- `thread::sleep` of 100 ms
  pub sleep : Host B (Outside W) → Host B (Outside W)

-- `[5, 32, 33, 170].contains(&rc)`
abbrev pub is_busy : ℕ → Bool
is_busy rc = rc == 5 || rc == 32 || rc == 33 || rc == 170

-- The rounds of the first loop: it waits for 30 seconds, 100 ms a round.
abbrev pub discovery_rounds : ℕ
discovery_rounds = 301

module _ (B : Backend) {W : Type 0} (S : Shim B W) where
  abbrev pub Server : Type 0
  Server = Host B (Outside W)

  abbrev pub faulted : Server → Bool
  faulted s = (inner B s.adapter).faulted

  abbrev pub with_quit : Bool → Server → Server
  with_quit b s = record s { outside = record { world = s.outside.world; quit = b } }

  abbrev pub fault : Server → Server
  fault s = record s { adapter = mark_faulted B s.adapter }

  -- The loop that waits for the volume, from a first value of `ready`.
  unfoldable pub discover : ℕ → ℕ → ℕ → Server → Outcome ℕ × Server
  discover zero deadline ready s = (unfinished, s)
  discover (suc fuel) deadline ready s = elim (ready == 0) [
    | true ↦ (ok ready, s)
    | false ↦
        let (time, t) = S.now s in
        elim (ltb time deadline) [
          | false ↦ (ok ready, t)
          | true ↦
              let (e, u) = S.wl_error t in
              elim (e == 0 && not (faulted u) && not u.outside.quit) [
                | false ↦ (ok ready, u)
                | true ↦
                    let (again, w) = S.wl_volume_ready (S.sleep u) in discover fuel deadline again w
              ]
        ]
  ]

  -- The loop over a published volume; its result is `clean`.
  unfoldable pub publish : ℕ → Bool → Server → Outcome Bool × Server
  publish zero read_only s = (unfinished, s)
  publish (suc fuel) read_only s =
      let (e, t) = S.wl_error s in
      elim (e == 0 && not (faulted t)) [
        | false ↦ (ok read_only, t)
        | true ↦ elim t.outside.quit [
          | false ↦ publish fuel read_only (S.sleep t)
          | true ↦ elim read_only [
            | true ↦ (ok true, with_quit false t)
            | false ↦
                let (rc, phase, u) = S.wl_lock_and_dismount (with_quit false t) in
                elim (rc == 0) [
                  | true ↦ (ok true, u)
                  | false ↦ elim (phase == 1 && is_busy rc) [
                    | true ↦ publish fuel false (S.sleep u)
                    | false ↦ (ok false, fault u)
                  ]
                ]
          ]
        ]
      ]

  -- What becomes of a volume that was never discovered; its result is `clean`.
  abbrev pub give_up : Bool → Server → Bool × Server
  give_up true s = (true, s)
  give_up false s = let (rc, phase, t) = S.wl_lock_and_dismount s in (rc == 0, t)

  -- The result, from the reports of the loops and of the shutdown.
  abbrev pub verdict : Bool → ℕ → Bool → Bool → Outcome (Unit {0})
  verdict read_only ready clean failed =
      if not read_only && (not clean || failed)
      then err unclean_close
      else if ready != 0
      then err volume_discovery_failed
      else if failed
      then err device_publish_failed
      else ok tt

  abbrev pub close : Bool → ℕ → Bool → Server → Outcome (Unit {0}) × Server
  close read_only ready clean s =
      let (r, t) = shutdown B s S.wl_close in
      elim r [
        | ok failed ↦ (verdict read_only ready clean failed, t)
        | err e ↦ (err e, t)
        | panic ↦ (panic, t)
        | unfinished ↦ (unfinished, t)
      ]

  abbrev pub after_publish : Bool → Outcome Bool × Server → Outcome (Unit {0}) × Server
  after_publish read_only (ok clean, s) = close read_only 0 clean s
  after_publish read_only (err e, s) = (err e, s)
  after_publish read_only (panic, s) = (panic, s)
  after_publish read_only (unfinished, s) = (unfinished, s)

  abbrev pub after_discover : ℕ → Bool → Outcome ℕ × Server → Outcome (Unit {0}) × Server
  after_discover fuel read_only (ok ready, s) =
      let (clean, t) = give_up read_only s in
      if ready == 0
      then after_publish read_only (publish fuel read_only s)
      else close read_only ready clean t
  after_discover fuel read_only (err e, s) = (err e, s)
  after_discover fuel read_only (panic, s) = (panic, s)
  after_discover fuel read_only (unfinished, s) = (unfinished, s)

  -- The session, once it is created.
  unfoldable pub session : ℕ → Bool → Server → Outcome (Unit {0}) × Server
  session fuel read_only s =
      let (start, t) = S.now s in
      let (ready, u) = S.wl_volume_ready t in
      after_discover fuel read_only (discover discovery_rounds (start + 30000) ready u)

  -- `serve`, after its check of the consumer
  unfoldable pub serve_adapter : ℕ → Bool → Server → Outcome (Unit {0}) × Server
  serve_adapter fuel read_only s =
      let (handled, t) = S.set_handler s in
      let (rc, u) = S.create ((inner B t.adapter).len / 512) read_only t in
      if not handled
      then (err device_publish_failed, t)
      else if rc != 0
      then (err device_publish_failed, u)
      else session fuel read_only u

  -- `quit` starts unset.
  abbrev pub first_state : ValidatedVolume B → W → Server
  first_state v w = record {
    adapter = new_adapter B v;
    outside = record { world = w; quit = false };
  }

  unfoldable pub serve :
      (Filesystem → AccessMode → Outcome (Unit {0}))
      → ℕ
      → ValidatedVolume B
      → W
      → Outcome (Unit {0}) × Server
  serve check fuel v w =
      let s = first_state v w in
      elim (check v.filesystem v.volume.image.mode) [
        | ok _ ↦ serve_adapter fuel (not (is_read_write v.volume.image.mode)) s
        | err e ↦ (err e, s)
        | panic ↦ (panic, s)
        | unfinished ↦ (unfinished, s)
      ]
