-- ===== src/Adapter/Windows/Served.antt =====
-- What a clean end of `serve` in src/adapter/windows.rs means for the image.
use Prim.Native.Nat.{zero, suc}
use winluks.Base.{ℕ, ◌+◌, ◌/◌, ◌≡◌, ◌⊎◌, inl, inr, refl, ap, ◌∙◌, Bool, true, false, arith}
use winluks.Base.{Bool-cases, ◌==◌}
use winluks.Error.{Outcome, ok, err, panic, unfinished}
use winluks.Image.Os.{Backend}
use winluks.Crypto.Primitives.{Libraries}
use winluks.Adapter.{BlockAdapter, inner, shutdown}
use winluks.Adapter.Windows.Serve.{Shim, Server, with_quit, faulted, discover, publish}
use winluks.Adapter.Windows.Serve.{
  give_up, close, after_publish, after_discover, discovery_rounds, session, serve_adapter,
}
use winluks.Adapter.Windows.Driven.{
  Follows, Follows-trans, IsDriver, publish-Follows, IsShut, shutdown-IsShut,
}
use winluks.Adapter.Windows.Course.{
  Course, handled, created, timed, polled, looked, paused, cleared, tried, discover-Course,
  Course-Follows,
}

module _ (B : Backend) (P : Libraries) {W : Type 0} (S : Shim B W) (D : IsDriver B P S)
    (first : Server B S) where
  abbrev a : BlockAdapter B
  a = first.adapter

  -- What a close that ends well has found.
  record IsClosed (read_only : Bool) (ready : ℕ) (clean : Bool) (s t : Server B S) : Type 0 where
    shut : IsShut B P S D a s t
    ended : t ≡ (shutdown B s S.wl_close).1
    in_order : faulted B S t ≡ false
    discovered : ready ≡ 0
    cleaned : (read_only ≡ true) ⊎ (clean ≡ true)

  shutdown_in_order :
      (s : Server B S)
      → (shutdown B s S.wl_close).0 ≡ ok false
      → faulted B S (shutdown B s S.wl_close).1 ≡ false
  unfolding shutdown
  shutdown_in_order s e = ground arith

  close_cases :
      (read_only : Bool) (ready : ℕ) (clean : Bool) (s : Server B S)
      → (close B S read_only ready clean s).0 ≡ ok tt
      → ((shutdown B s S.wl_close).0 ≡ ok false)
        × ((close B S read_only ready clean s).1 ≡ (shutdown B s S.wl_close).1)
        × (ready ≡ 0)
        × ((read_only ≡ true) ⊎ (clean ≡ true))
  close_cases read_only ready clean s e = ground arith

  close-IsClosed :
      (read_only : Bool) (ready : ℕ) (clean : Bool) (s : Server B S)
      → Follows B P a s.adapter
      → (close B S read_only ready clean s).0 ≡ ok tt
      → IsClosed read_only ready clean s (close B S read_only ready clean s).1
  close-IsClosed read_only ready clean s f e =
      let c = close_cases read_only ready clean s e in
      record {
        shut = rw c.1 (shutdown-IsShut B P S D a s false c.0 f);
        ended = c.1;
        in_order = rw c.1 (shutdown_in_order s c.0);
        discovered = c.2;
        cleaned = c.3;
      }

  -- A state of the session in which a dismount was asked for and done, and the state after it.
  pub record IsDismounted (t : Server B S) : Type 0 where
    pub asked : Server B S
    pub course : Course B S first asked
    pub success : (S.wl_lock_and_dismount asked).0 ≡ 0
    pub next : t ≡ (S.wl_lock_and_dismount asked).2

  -- The end of a session that reports success, from the last state before its shutdown.
  pub record EndsWell (read_only : Bool) (t : Server B S) : Type 0 where
    pub last : Server B S
    pub shut : IsShut B P S D a last t
    pub ended : t ≡ (shutdown B last S.wl_close).1
    pub in_order : faulted B S t ≡ false
    pub dismounted : (read_only ≡ true) ⊎ IsDismounted last

  -- A clean report of the loop comes from a dismount with which it ends, or from a later round.
  publish-step :
      (fuel : ℕ) (s : Server B S)
      → (publish B S (suc fuel) false s).0 ≡ ok true
      → let t = (S.wl_error s).1 in
        let u = S.wl_lock_and_dismount (with_quit B S false t) in
        ((u.0 ≡ 0) × ((publish B S (suc fuel) false s).1 ≡ u.2))
        ⊎ (publish B S (suc fuel) false s ≡ publish B S fuel false (S.sleep t))
        ⊎ (publish B S (suc fuel) false s ≡ publish B S fuel false (S.sleep u.2))
  unfolding publish
  publish-step fuel s e = ground arith

  publish-IsDismounted :
      (fuel : ℕ) (s : Server B S)
      → Course B S first s
      → (publish B S fuel false s).0 ≡ ok true
      → IsDismounted (publish B S fuel false s).1
  publish-IsDismounted zero s f e = absurd (unfold publish in cc)
  publish-IsDismounted (suc fuel) s f e =
      let t = (S.wl_error s).1 in
      let q = with_quit B S false t in
      let u = (S.wl_lock_and_dismount q).2 in
      let ct : Course B S first t = polled f in
      let cq : Course B S first q = cleared ct in
      elim (publish-step fuel s e) [
        | inl done ↦ record { asked = q; course = cq; success = done.0; next = done.1 }
        | inr (inl waited) ↦
            rw waited (publish-IsDismounted fuel (S.sleep t) (paused ct) (rw waited at e))
        | inr (inr busy) ↦
            rw busy (publish-IsDismounted fuel (S.sleep u) (paused (tried cq)) (rw busy at e))
      ]

  after_publish-EndsWell :
      (fuel : ℕ) (read_only : Bool) (s : Server B S)
      → Course B S first s
      → let x = after_publish B S read_only (publish B S fuel read_only s) in
        x.0 ≡ ok tt → EndsWell read_only x.1
  after_publish-EndsWell fuel read_only s f e = by_report (publish B S fuel read_only s) refl e
    where
      dismounts :
          (r : Bool) (clean : Bool) (t : Server B S)
          → r ≡ read_only
          → publish B S fuel read_only s ≡ (ok clean, t)
          → (r ≡ true) ⊎ (clean ≡ true)
          → (read_only ≡ true) ⊎ IsDismounted t
      dismounts true clean t q p c = inl (cc)
      dismounts false clean t q p (inl c) = absurd (cc)
      dismounts false clean t q p (inr c) =
          let now : publish B S fuel false s ≡ (ok clean, t) = cc (q, p) in
          inr (
            rw (ap (λ y. y.1) now) at (publish-IsDismounted fuel s f (ap (λ y. y.0) now ∙ ap ok c)))

      by_report :
          (x : Outcome Bool × Server B S)
          → publish B S fuel read_only s ≡ x
          → (after_publish B S read_only x).0 ≡ ok tt
          → EndsWell read_only (after_publish B S read_only x).1
      by_report (ok clean, t) p q =
          let g : Follows B P a t.adapter =
            rw (ap (λ y. y.1.adapter) p) at
              (publish-Follows B P S D a fuel read_only s (Course-Follows B S P D f)) in
          let c = close-IsClosed read_only 0 clean t g q in
          record {
            last = t;
            shut = c.shut;
            ended = c.ended;
            in_order = c.in_order;
            dismounted = dismounts read_only clean t refl p c.cleaned;
          }
      by_report (err x, t) p q = absurd (cc)
      by_report (panic, t) p q = absurd (cc)
      by_report (unfinished, t) p q = absurd (cc)

  give_up-Follows :
      (read_only : Bool) (s : Server B S)
      → Follows B P a s.adapter
      → Follows B P a (give_up B S read_only s).1.adapter
  give_up-Follows true s f = f
  give_up-Follows false s f = Follows-trans B P f (D.wl_lock_and_dismount-Follows s)

  after_discover-EndsWell :
      (fuel : ℕ) (read_only : Bool) (x : Outcome ℕ × Server B S)
      → Course B S first x.1
      → (after_discover B S fuel read_only x).0 ≡ ok tt
      → EndsWell read_only (after_discover B S fuel read_only x).1
  after_discover-EndsWell fuel read_only (ok ready, s) f e = elim (Bool-cases (ready == 0)) [
    | inl found ↦ rw found (after_publish-EndsWell fuel read_only s f (rw found at e))
    | inr missing ↦
        let g = give_up B S read_only s in
        let c =
          close-IsClosed read_only ready g.0 g.1
            (give_up-Follows read_only s (Course-Follows B S P D f)) (rw missing at e) in
        absurd (ground (arith, c.discovered))
  ]
  after_discover-EndsWell fuel read_only (err x, s) f e = absurd (cc)
  after_discover-EndsWell fuel read_only (panic, s) f e = absurd (cc)
  after_discover-EndsWell fuel read_only (unfinished, s) f e = absurd (cc)

  pub serve_adapter-EndsWell :
      (fuel : ℕ) (read_only : Bool) (s : Server B S)
      → Course B S first s
      → (serve_adapter B S fuel read_only s).0 ≡ ok tt
      → EndsWell read_only (serve_adapter B S fuel read_only s).1
  unfolding serve_adapter session
  serve_adapter-EndsWell fuel read_only s f e =
      let t = (S.set_handler s).1 in
      let n = (inner B t.adapter).len / 512 in
      let u = (S.create n read_only t).1 in
      let v = (S.now u).1 in
      let w = (S.wl_volume_ready v).1 in
      let cw : Course B S first w = looked (timed (created n read_only (handled f))) in
      let deadline = (S.now u).0 + 30000 in
      let ready = (S.wl_volume_ready v).0 in
      let x = discover B S discovery_rounds deadline ready w in
      ground (
        arith,
        after_discover-EndsWell fuel read_only x
            (discover-Course B S discovery_rounds deadline ready w cw),
      )
