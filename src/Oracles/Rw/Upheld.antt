-- ===== src/Oracles/Rw/Upheld.antt =====
-- No assertion of examples/rw_oracle.rs fails.
use winluks.Base.{
  ℕ, ◌-◌, ◌*◌, ◌/◌, ◌%◌, ◌^◌, ◌≡◌, refl, ap, ◌∙◌, sym, Bool, true, false, List, [], ◌∷◌, arith,
}
use winluks.Base.{zero, suc, leb, length}
use winluks.Error.{invalid_range, stopping, unsupported_operation}
use winluks.Image.Os.{Backend, IsFile, IsPatient}
use winluks.Crypto.Primitives.{Libraries, IsCipher}
use winluks.Probe.Fields.{same_bytes_refl}
use winluks.Volume.{UnlockedVolume}
use winluks.Adapter
use winluks.Adapter.{BlockAdapter, inner}
use winluks.Oracles.{
  Trial, Upholds, Upholds-done, Upholds-panicked, and_then, zeros, attempt-Upholds,
  and_then-Upholds, expect-Upholds, claim-Upholds, is_invalid_range, is_unsupported_operation,
  is_stopping,
}
use winluks.Oracles.Rw.{write_changes, changes, pattern, seed_of, refusals, rewrite}
use winluks.Oracles.Rw.Session.{
  IsFramed, IsFramed-trans, IsGoing, read-IsGoing, write-IsGoing, flush-IsGoing, write-IsFramed,
  read_back,
}
use winluks.Oracles.Rw.Refusals.{
  write_overflow, write_end, unmap_refused, write_stopped, read-ne-unfinished, write-ne-unfinished,
  flush-ne-unfinished,
}

-- The ranges are whole sectors.
abbrev IsWhole : ℕ × ℕ → Type 0
IsWhole (offset, n) = n / 512 % 2 ^ 32 * 512 ≡ n

abbrev All : List (ℕ × ℕ) → Type 0
All [] = Unit
All (c ∷ cs) = IsWhole c × All cs

length-pattern : (seed i n : ℕ) → length (pattern seed i n) ≡ n
unfolding pattern
length-pattern seed i zero = refl
length-pattern seed i (suc n) = ap suc (length-pattern seed (suc i) n)

changes-All : (len : ℕ) → All (changes len)
changes-All len = (refl, (refl, (refl, (refl, (refl, (refl, tt))))))

module _ (B : Backend) (L : IsFile B) (patient : IsPatient B) (P : Libraries) (C : IsCipher P)
    (v : UnlockedVolume B) where
  abbrev Going : BlockAdapter B → Type 0
  Going = IsGoing B L patient P C v

  write_changes-Upholds :
      (cs : List (ℕ × ℕ)) (index : ℕ) (a : BlockAdapter B)
      → All cs
      → Going a
      → Upholds Going (write_changes P cs index a)
  unfolding write_changes
  write_changes-Upholds [] index a _ g = Upholds-done a g
  write_changes-Upholds ((offset, n) ∷ cs) index a (whole, rest) g =
      let bytes = pattern (seed_of index) 0 n in
      let lba = offset / 512 in
      let count = n / 512 % 2 ^ 32 in
      let b = (Adapter.write B P a lba bytes).1 in
      let going = write-IsGoing B L patient P C v a lba bytes g in
      attempt-Upholds (Adapter.write B P a lba bytes).0 _
        (write-ne-unfinished B patient P a lba bytes)
        (λ _ w.
          attempt-Upholds (Adapter.read B P b lba count).0 _
            (read-ne-unfinished B patient P b lba count)
            (λ got r.
              let same : got ≡ bytes =
                read_back B L patient P C v a lba count bytes got g
                  (whole ∙ sym (length-pattern (seed_of index) 0 n)) w r in
              claim-Upholds _ _ (rw same (same_bytes_refl bytes)) (
                write_changes-Upholds cs (suc index) (Adapter.read B P b lba count).1 rest
                  (read-IsGoing B L patient P C v b lba count going))))

  -- What is left when the adapter is dropped.
  abbrev Closed : BlockAdapter B → Type 0
  Closed a = IsFramed L v (inner B a)

  unmap-IsGoing : (a : BlockAdapter B) → Going a → Going (Adapter.unmap B a).1
  unfolding Adapter.unmap
  unmap-IsGoing a g = record {
    framed = g.framed;
    running = g.running;
    writable = g.writable;
    disk = g.disk;
    holds = g.holds;
  }

  stop-inner : (a : BlockAdapter B) → inner B (Adapter.stop B a) ≡ inner B a
  unfolding Adapter.stop
  stop-inner a = refl

  refusals-Upholds : (a : BlockAdapter B) → Going a → Upholds Closed (refusals P a)
  unfolding refusals
  refusals-Upholds a g =
      let b = (Adapter.write B P a (2 ^ 64 - 1) zeros).1 in
      let gb = write-IsGoing B L patient P C v a (2 ^ 64 - 1) zeros g in
      let c = (Adapter.write B P b ((inner B b).len / 512) zeros).1 in
      let gc = write-IsGoing B L patient P C v b ((inner B b).len / 512) zeros gb in
      let d = (Adapter.unmap B c).1 in
      let gd = unmap-IsGoing c gc in
      let e = (Adapter.flush B d 0 0).1 in
      let ge = flush-IsGoing B L patient P C v d 0 0 gd in
      let last = write-IsFramed B L patient P C (Adapter.stop B e) 0 zeros in
      expect-Upholds is_invalid_range _ _ invalid_range
        (write_overflow B P a g.writable zeros g.running) refl
        (expect-Upholds is_invalid_range _ _ invalid_range
          (write_end B P b gb.writable zeros gb.running gb.holds.placed (omega arith)) refl
          (expect-Upholds is_unsupported_operation _ _ unsupported_operation
            (unmap_refused B P c gc.writable) refl
            (attempt-Upholds (Adapter.flush B d 0 0).0 _ (flush-ne-unfinished B patient P d 0 0)
              (λ _ _.
                expect-Upholds is_stopping _ _ stopping (write_stopped B P e ge.writable 0 zeros)
                  refl (Upholds-done _ (IsFramed-trans L ge.framed (rw (← stop-inner e) last)))))))

  pub rewrite-Upholds : (a : BlockAdapter B) → Going a → Upholds Closed (rewrite P a)
  unfolding rewrite
  rewrite-Upholds a g = by_size (leb 512 (inner B a).len)
    where
      by_size :
          (b : Bool)
          → Upholds Closed (elim b as (λ _. Trial (BlockAdapter B)) [
            | false ↦ Trial.panicked
            | true ↦ and_then (write_changes P (changes (inner B a).len) 0 a) (refusals P)
          ])
      by_size false = Upholds-panicked
      by_size true =
          and_then-Upholds (write_changes P (changes (inner B a).len) 0 a) (refusals P)
            (write_changes-Upholds (changes (inner B a).len) 0 a (changes-All (inner B a).len) g)
            (λ b _ going. refusals-Upholds b going)
