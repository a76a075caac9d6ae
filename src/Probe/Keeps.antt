-- ===== src/Probe/Keeps.antt =====
-- What the reads of `check` in src/probe.rs keep, a check that passes keeps.
use winluks.Base.{ℕ, ◌+◌, ◌≡◌, refl, Bool, true, false, List, [], ◌∷◌, ltb}
use winluks.Error.{fs_recovery_required, Result, Outcome, ok, err, panic, unfinished}
use winluks.Probe.Btrfs.{btrfs_at}
use winluks.Probe.{Filesystem, differ, mirrors, check, mirror_loop, after_read, after_check}

module _ {S : Type 0} (crc32c : List ℕ → ℕ) (read : S → ℕ → ℕ → Outcome (List ℕ) × S) (len : ℕ)
    (Q : S → Type 0)
    (keeps : (s : S) (o n : ℕ) (bytes : List ℕ)
      → Q s
      → (read s o n).0 ≡ ok bytes
      → Q (read s o n).1) where
  -- Steps that passed, with the state that they went on from.
  after_read_keeps :
      (s : S) (o n : ℕ) (next : List ℕ → S → Outcome (Unit {0}) × S)
      → Q s
      → ((bytes : List ℕ) (t : S) → Q t → (next bytes t).0 ≡ ok tt → Q (next bytes t).1)
      → (after_read crc32c read len (read s o n) next).0 ≡ ok tt
      → Q (after_read crc32c read len (read s o n) next).1
  after_read_keeps s o n next q rest e = by_result (read s o n) (keeps s o n) e
    where
      by_result :
          (x : Outcome (List ℕ) × S)
          → ((bytes : List ℕ) → Q s → x.0 ≡ ok bytes → Q x.1)
          → (after_read crc32c read len x next).0 ≡ ok tt
          → Q (after_read crc32c read len x next).1
      by_result (ok bytes, t) k e = rest bytes t (k bytes q refl) e
      by_result (err x, t) k e = absurd (cc)
      by_result (panic, t) k e = absurd (cc)
      by_result (unfinished, t) k e = absurd (cc)

  after_check_keeps :
      (r : Result (Unit {0})) (s : S) (next : S → Outcome (Unit {0}) × S)
      → ((next s).0 ≡ ok tt → Q (next s).1)
      → (after_check crc32c read len r s next).0 ≡ ok tt
      → Q (after_check crc32c read len r s next).1
  after_check_keeps (ok _) s next rest e = rest e
  after_check_keeps (err x) s next rest e = absurd (cc)

  mirror_loop_keeps :
      (primary : List ℕ) (offsets : List ℕ) (s : S)
      → Q s
      → (mirror_loop crc32c read len primary offsets s).0 ≡ ok tt
      → Q (mirror_loop crc32c read len primary offsets s).1
  unfolding mirror_loop
  mirror_loop_keeps primary [] s q e = q
  mirror_loop_keeps primary (o ∷ os) s q e =
      by_size (mirror_loop_keeps primary os) (ltb len (o + 4096)) e
    where
      by_difference :
          (b : Bool) (t : S) (y : Outcome (Unit {0}) × S)
          → (y.0 ≡ ok tt → Q y.1)
          → (elim b as (λ _. Outcome (Unit {0}) × S) [
            | true ↦ (err fs_recovery_required, t)
            | false ↦ y
          ]).0
            ≡ ok tt
          → Q
              (elim b as (λ _. Outcome (Unit {0}) × S) [
                | true ↦ (err fs_recovery_required, t)
                | false ↦ y
              ]).1
      by_difference true t y k e = absurd (cc)
      by_difference false t y k e = k e

      next : List ℕ → S → Outcome (Unit {0}) × S
      next m t = after_check crc32c read len (btrfs_at crc32c m len o) t (λ u.
          elim (differ primary m) [
            | true ↦ (err fs_recovery_required, u)
            | false ↦ mirror_loop crc32c read len primary os u
          ])

      Rest : Type 0
      Rest =
          (t : S)
          → Q t
          → (mirror_loop crc32c read len primary os t).0 ≡ ok tt
          → Q (mirror_loop crc32c read len primary os t).1

      later : Rest → (m : List ℕ) (t : S) → Q t → (next m t).0 ≡ ok tt → Q (next m t).1
      later ih m t qt =
          after_check_keeps (btrfs_at crc32c m len o) t _ (
            by_difference (differ primary m) t (mirror_loop crc32c read len primary os t) (ih t qt))

      by_size :
          Rest
          → (b : Bool)
          → (elim b as (λ _. Outcome (Unit {0}) × S) [
            | true ↦ (ok tt, s)
            | false ↦ after_read crc32c read len (read s o 4096) next
          ]).0
            ≡ ok tt
          → Q
              (elim b as (λ _. Outcome (Unit {0}) × S) [
                | true ↦ (ok tt, s)
                | false ↦ after_read crc32c read len (read s o 4096) next
              ]).1
      by_size ih true e = q
      by_size ih false e = after_read_keeps s o 4096 next q (later ih) e

  -- The state after a check that passed is as the reads leave it.
  pub check_keeps :
      (fs : Filesystem) (s : S)
      → Q s
      → (check crc32c read len fs s).0 ≡ ok tt
      → Q (check crc32c read len fs s).1
  unfolding check
  check_keeps Filesystem.ext4 s q e = after_read_keeps s 1024 1024 _ q (λ block t k _. k) e
  check_keeps Filesystem.btrfs s q e =
      after_read_keeps s 65536 4096 _ q
        (λ primary t k.
          after_check_keeps (btrfs_at crc32c primary len 65536) t _
            (mirror_loop_keeps primary mirrors t k))
        e
