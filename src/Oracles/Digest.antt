-- ===== src/Oracles/Digest.antt =====
-- The digest that the oracles of examples/ take, in chunks of 1 MiB.
use winluks.Base.{ℕ, ◌+◌, ◌-◌, ◌≤◌, ◌<◌, ◌≡◌, refl, ap, true, false, List, arith}
use winluks.Base.{zero, suc, ltb, Option, none, some}
use winluks.Base.Contents.{Contents, slice, slice-ext}
use winluks.Error.{Outcome, ok, err, panic, unfinished}
use winluks.Adapter.Windows.Consumer.{hex}
use winluks.Oracles.{Trial, done, attempt, require, Hasher, smaller, mebibyte}

pub smaller-le : (a b : ℕ) → smaller a b ≤ a
smaller-le a b = ground arith

pub smaller-positive : (a b : ℕ) → 0 < a → 0 < b → 0 < smaller a b
smaller-positive a b p q = ground arith

pub require-done :
    {A C : Type 0} (r : Option A) (next : A → Trial C) (out : C)
    → require r next ≡ done out
    → (a : A) × (r ≡ some a) × (next a ≡ done out)
require-done (some a) next out e = (a, refl, e)
require-done none next out e = absurd (cc)

pub attempt-done :
    {A C : Type 0} (r : Outcome A) (next : A → Trial C) (out : C)
    → attempt r next ≡ done out
    → (a : A) × (r ≡ ok a) × (next a ≡ done out)
attempt-done (ok a) next out e = (a, refl, e)
attempt-done (err x) next out e = absurd (cc)
attempt-done panic next out e = absurd (cc)
attempt-done unfinished next out e = absurd (cc)

module _ (H : Hasher) where
  -- The digest of the bytes from an offset up to a length, chunk by chunk.
  abbrev pub digest_of : Contents → ℕ → ℕ → ℕ → H.State → Option (List ℕ)
  digest_of c zero len offset hash = none
  digest_of c (suc fuel) len offset hash = elim (ltb offset len) [
    | false ↦ elim (H.finish hash) [ none ↦ none | some digest ↦ some (hex digest) ]
    | true ↦
        let n = smaller (len - offset) mebibyte in
        elim (H.update hash (slice c offset n)) [
          | none ↦ none
          | some next ↦ digest_of c fuel len (offset + n) next
        ]
  ]

  pub digest_of-ext :
      (c d : Contents) (fuel len offset : ℕ) (hash : H.State)
      → ((i : ℕ) → i < len → c i ≡ d i)
      → digest_of c fuel len offset hash ≡ digest_of d fuel len offset hash
  digest_of-ext c d zero len offset hash same = refl
  digest_of-ext c d (suc fuel) len offset hash same =
      let n = smaller (len - offset) mebibyte in
      let chunk : slice c offset n ≡ slice d offset n =
        slice-ext c d offset n
          (λ i p q. same i (omega (arith, p, q, smaller-le (len - offset) mebibyte))) in
      grind (arith, chunk, λ (k : H.State). digest_of-ext c d fuel len (offset + n) k same)

  pub digest_of-more :
      (c : Contents) (fuel len offset n : ℕ) (hash next : H.State) (bytes : List ℕ)
      → ltb offset len ≡ true
      → n ≡ smaller (len - offset) mebibyte
      → bytes ≡ slice c offset n
      → H.update hash bytes ≡ some next
      → digest_of c (suc fuel) len offset hash ≡ digest_of c fuel len (offset + n) next
  digest_of-more c fuel len offset n hash next bytes more size chunk updated =
      ground (
        arith,
        (rw (chunk, size) at updated),
        ap (λ m. digest_of c fuel len (offset + m) next) size,
      )
