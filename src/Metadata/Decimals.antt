-- ===== src/Metadata/Decimals.antt =====
-- The numbers in texts that src/metadata.rs accepts: each is written in one way only.
use text.Mathlib.TextEquality.{Char-path}
use winluks.Base.{
  String, ◌⊎◌, inl, inr, ◌∙◌, sym, ℕ, ◌+◌, ◌*◌, ◌-◌, ◌≤◌, ◌<◌, ◌≡◌, refl, ◌∷◌, List, [], true,
  false, length, arith,
}
use winluks.Error.{ok}
use winluks.StrictJson.{codes}
use winluks.Metadata.Fields.{value_of, all_digits, starts_with_zero, decimal, id}

codes-injective : (s t : String) → codes s ≡ codes t → s ≡ t
codes-injective String.[] String.[] e = refl
codes-injective String.[] (String.◌∷◌ d t) e = absurd (cc)
codes-injective (String.◌∷◌ c s) String.[] e = absurd (cc)
codes-injective (String.◌∷◌ c s) (String.◌∷◌ d t) e =
    let same = Char-path c d (ground arith) in
    let rest = codes-injective s t (ground arith) in cc (same, rest)

value_of-above : (n : ℕ) (cs : List ℕ) → n ≤ value_of n cs
value_of-above n [] = omega arith
value_of-above n (c ∷ cs) = omega (arith, value_of-above (n * 10 + (c - b'0')) cs)

-- More before at least as many digits is more.
value_of-below :
    (n m : ℕ) (cs ds : List ℕ)
    → all_digits cs ≡ true
    → n < m
    → length cs ≤ length ds
    → value_of n cs < value_of m ds
value_of-below n m [] ds p l h = omega (arith, value_of-above m ds)
value_of-below n m (c ∷ cs) [] p l h = absurd (ground arith)
value_of-below n m (c ∷ cs) (d ∷ ds) p l h =
    value_of-below (n * 10 + (c - b'0')) (m * 10 + (d - b'0')) cs ds (ground arith) (ground arith)
      (ground arith)

value_of-injective :
    (n m : ℕ) (cs ds : List ℕ)
    → all_digits cs ≡ true
    → all_digits ds ≡ true
    → length cs ≡ length ds
    → value_of n cs ≡ value_of m ds
    → (n ≡ m) × (cs ≡ ds)
value_of-injective n m [] [] p q l e = (e, refl)
value_of-injective n m [] (d ∷ ds) p q l e = absurd (ground arith)
value_of-injective n m (c ∷ cs) [] p q l e = absurd (ground arith)
value_of-injective n m (c ∷ cs) (d ∷ ds) p q l e =
    let rest =
      value_of-injective (n * 10 + (c - b'0')) (m * 10 + (d - b'0')) cs ds (ground arith)
        (ground arith) (ground arith) e in
    ground (arith, rest)

-- A shorter text without leading zero is a smaller number.
value_of-shorter :
    (cs ds : List ℕ)
    → all_digits cs ≡ true
    → all_digits ds ≡ true
    → 0 < length cs
    → length cs < length ds
    → starts_with_zero ds ≡ false
    → value_of 0 cs < value_of 0 ds
value_of-shorter [] ds p q l h z = absurd (ground arith)
value_of-shorter (c ∷ cs) [] p q l h z = absurd (ground arith)
value_of-shorter (c ∷ cs) (d ∷ ds) p q l h z =
    value_of-below 0 (0 * 10 + (d - b'0')) (c ∷ cs) ds p (ground arith) (ground arith)

-- What an accepted text is made of.
record IsCanonical (cs : List ℕ) (n : ℕ) : Type 0 where
  some_digit : 0 < length cs
  digits : all_digits cs ≡ true
  shortest : 1 < length cs → starts_with_zero cs ≡ false
  value : value_of 0 cs ≡ n

decimal-IsCanonical : (s : String) (n : ℕ) → decimal s ≡ ok n → IsCanonical (codes s) n
unfolding decimal
decimal-IsCanonical s n e = record {
  some_digit = ground arith;
  digits = ground arith;
  shortest = λ h. ground arith;
  value = ground arith;
}

IsCanonical-injective : (cs ds : List ℕ) (n : ℕ) → IsCanonical cs n → IsCanonical ds n → cs ≡ ds
IsCanonical-injective cs ds n p q = elim (order (length cs) (length ds)) [
  | inl less ↦ absurd (
      omega (
        arith,
        value_of-shorter cs ds p.digits q.digits p.some_digit less
            (q.shortest (omega (arith, less, p.some_digit))),
        p.value,
        q.value,
      ))
  | inr (inl more) ↦ absurd (
      omega (
        arith,
        value_of-shorter ds cs q.digits p.digits q.some_digit more
            (p.shortest (omega (arith, more, q.some_digit))),
        p.value,
        q.value,
      ))
  | inr (inr same) ↦ (value_of-injective 0 0 cs ds p.digits q.digits same (p.value ∙ sym q.value)).1
]
  where
    order : (a b : ℕ) → (a < b) ⊎ (b < a) ⊎ (a ≡ b)
    order a b = ground arith

decimal-injective : (s t : String) (n : ℕ) → decimal s ≡ ok n → decimal t ≡ ok n → s ≡ t
decimal-injective s t n p q = codes-injective s t (
    IsCanonical-injective (codes s) (codes t) n (decimal-IsCanonical s n p)
      (decimal-IsCanonical t n q))

id-decimal : (s : String) (max n : ℕ) → id s max ≡ ok n → decimal s ≡ ok n
unfolding id
id-decimal s max n e = ground arith

pub id-injective : (s t : String) (max n : ℕ) → id s max ≡ ok n → id t max ≡ ok n → s ≡ t
id-injective s t max n p q = decimal-injective s t n (id-decimal s max n p) (id-decimal t max n q)
