-- ===== src/Oracles/Ro/Whole.antt =====
-- The digest of the whole volume in examples/oracle.rs.
use winluks.Base.{ℕ, ◌+◌, ◌-◌, ◌<◌, ◌≡◌, refl, ap, ◌∙◌, sym, Bool, true, false, List, arith}
use winluks.Base.{zero, suc, ltb, Option, some}
use winluks.Base.Contents.{Contents, slice}
use winluks.Image.Os.{Backend, IsFile, IsPatient}
use winluks.Crypto.Primitives.{Libraries}
use winluks.Volume.{UnlockedVolume, read_at}
use winluks.Volume.Totality.{read_at-ne-unfinished}
use winluks.Probe.Fields.{same_bytes_refl}
use winluks.Adapter.Windows.Consumer.{hex}
use winluks.Oracles.{
  Trial, done, attempt, require, Hasher, smaller, mebibyte, Upholds, Upholds-done, Upholds-map,
  attempt-Upholds, require-Upholds, and_then-Upholds, unwrap-Upholds, claim-Upholds,
}
use winluks.Oracles.Digest.{smaller-positive, digest_of, digest_of-more}
use winluks.Oracles.Ro.{volume_loop, whole_volume}
use winluks.Oracles.Ro.Intact.{IsIntact, read_at-IsIntact, read_at_shown}

module _ (H : Hasher) (disk : Contents) (len : ℕ) where
  -- The digest that the manifest gives is that of the disk.
  abbrev pub IsSha : Option (List ℕ) → Type 0
  IsSha sha =
      (hash : H.State) (expected digest : List ℕ)
      → H.new ≡ some hash
      → sha ≡ some expected
      → digest_of H disk (suc len) len 0 hash ≡ some digest
      → digest ≡ expected

module _ (H : Hasher) {B : Backend} (L : IsFile B) (patient : IsPatient B) (P : Libraries)
    (disk : Contents) (len : ℕ) where
  abbrev Intact : UnlockedVolume B → Type 0
  Intact = IsIntact L P disk len

  -- The digest is that of the disk from an offset on.
  abbrev IsDigest : ℕ → ℕ → H.State → List ℕ × UnlockedVolume B → Type 0
  IsDigest fuel offset hash x = Intact x.1 × (digest_of H disk fuel len offset hash ≡ some x.0)

  volume_loop-Upholds :
      (fuel offset : ℕ) (hash : H.State) (w : UnlockedVolume B)
      → len - offset < fuel
      → Intact w
      → Upholds (IsDigest fuel offset hash) (volume_loop H P fuel w offset hash)
  unfolding volume_loop
  volume_loop-Upholds zero offset hash w enough i = elim enough [ ]
  volume_loop-Upholds (suc fuel) offset hash w enough i =
      by_test (volume_loop-Upholds fuel) (ltb offset w.len) refl
    where
      n : ℕ
      n = smaller (w.len - offset) mebibyte

      Rest : Type 0
      Rest =
          (o : ℕ) (next : H.State) (u : UnlockedVolume B)
          → len - o < fuel
          → Intact u
          → Upholds (IsDigest fuel o next) (volume_loop H P fuel u o next)

      by_test :
          Rest
          → (more : Bool) → ltb offset w.len ≡ more
          → Upholds
              (IsDigest (suc fuel) offset hash)
              (elim more as (λ _. Trial (List ℕ × UnlockedVolume B)) [
                | false ↦ require (H.finish hash) (λ digest. done (hex digest, w))
                | true ↦ attempt (read_at B P w offset n).0 (λ bytes.
                    require
                      (H.update hash bytes)
                      (λ next. volume_loop H P fuel (read_at B P w offset n).1 (offset + n) next))
              ])
      by_test ih false q =
          require-Upholds (H.finish hash) _
            (λ digest e. Upholds-done (hex digest, w) (i, ground (arith, e, i.same_len)))
      by_test ih true q =
          let more : 0 < w.len - offset = ground arith in
          let some_bytes = smaller-positive (w.len - offset) mebibyte more (omega arith) in
          attempt-Upholds (read_at B P w offset n).0 _
            (read_at-ne-unfinished B patient P w offset n)
            (λ bytes r.
              let chunk : bytes ≡ slice disk offset n =
                read_at_shown L P disk len w i offset n bytes r in
              require-Upholds (H.update hash bytes) _ (λ next e.
                Upholds-map
                  (λ x h. (
                    h.0,
                    (digest_of-more H disk fuel len offset n hash next bytes (rw i.same_len at q)
                          (ap (λ k. smaller (k - offset) mebibyte) i.same_len) chunk e
                        ∙ h.1),
                  ))
                  (ih (offset + n) next (read_at B P w offset n).1
                    (omega (arith, more, some_bytes, i.same_len))
                    (read_at-IsIntact L P disk len w i offset n (λ p. cc (p, r))))))

  pub whole_volume-Upholds :
      (sha : Option (List ℕ)) (w : UnlockedVolume B)
      → IsSha H disk len sha
      → Intact w
      → Upholds Intact (whole_volume H P sha w)
  unfolding whole_volume
  whole_volume-Upholds sha w truth i = require-Upholds H.new _ (λ hash started.
      and_then-Upholds (volume_loop H P (suc w.len) w 0 hash) _
        (volume_loop-Upholds (suc w.len) 0 hash w (omega (arith, i.same_len)) i)
        (λ x _ d. unwrap-Upholds sha _ (λ expected given.
          let same : x.0 ≡ expected =
            truth hash expected x.0 started given
              (ap (λ k. digest_of H disk (suc k) len 0 hash) (sym i.same_len) ∙ d.1) in
          claim-Upholds _ _ (rw same (same_bytes_refl expected)) (Upholds-done x.1 d.0))))
