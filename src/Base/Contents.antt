-- ===== src/Base/Contents.antt =====
-- The contents of a file or a disk: a byte at each position. A read is a slice, a write an overwrite.
use Prim.Native.Nat.{ℕ, zero, suc, ◌+◌, ◌-◌, ◌≤◌, ◌<◌}
use mathlib.Core.Path.{◌≡◌, refl, sym, ap, ◌∙◌}
use mathlib.Core.List.{List, [], ◌∷◌, ◌++◌}
use native.Mathlib.Omega.{arith}
use winluks.Base.Logic.{◌==◌, if◌then◌else◌}
use winluks.Base.Lists.{length, take, drop}

abbrev pub Contents : Type 0
Contents = ℕ → ℕ

unfoldable pub slice : Contents → ℕ → ℕ → List ℕ
slice f o zero = []
slice f o (suc n) = f o ∷ slice f (o + 1) n

unfoldable pub overwrite : Contents → ℕ → List ℕ → Contents
overwrite f o [] i = f i
overwrite f o (x ∷ b) i = if i == o then x else overwrite f (o + 1) b i

pub length-slice : (f : Contents) (o n : ℕ) → length (slice f o n) ≡ n
unfolding slice
length-slice f o zero = refl
length-slice f o (suc n) = ap suc (length-slice f (o + 1) n)

pub slice-ext :
    (f g : Contents) (o n : ℕ)
    → ((i : ℕ) → o ≤ i → i < o + n → f i ≡ g i)
    → slice f o n ≡ slice g o n
unfolding slice
slice-ext f g o zero h = refl
slice-ext f g o (suc n) h = cc (
  h o (omega arith) (omega arith),
  slice-ext f g (o + 1) n (λ i p q. h i (omega arith) (omega arith)),
)

pub slice-append :
    (f : Contents) (o n m k : ℕ) → n + m ≡ k → slice f o n ++ slice f (o + n) m ≡ slice f o k
unfolding slice
slice-append f o zero m k e =
    let e' : m ≡ k = omega arith in
    let o' : o + 0 ≡ o = omega arith in cc (ap (λ j. slice f o j) e', ap (λ j. slice f j m) o')
slice-append f o (suc n) m zero e = absurd (omega arith)
slice-append f o (suc n) m (suc k) e =
    let o' : o + suc n ≡ o + 1 + n = omega arith in
    cc (ap (λ j. slice f j m) o', slice-append f (o + 1) n m k (omega arith))

pub take-slice : (f : Contents) (o n m : ℕ) → n ≤ m → take n (slice f o m) ≡ slice f o n
unfolding slice
take-slice f o zero m h = refl
take-slice f o (suc n) zero h = elim h [ ]
take-slice f o (suc n) (suc m) h = ap (λ r. f o ∷ r) (take-slice f (o + 1) n m (omega arith))

pub drop-slice : (f : Contents) (o n m k : ℕ) → n + k ≡ m → drop n (slice f o m) ≡ slice f (o + n) k
unfolding slice
drop-slice f o zero m k e =
    let e' : m ≡ k = omega arith in
    let o' : o + 0 ≡ o = omega arith in cc (ap (λ j. slice f o j) e', ap (λ j. slice f j k) o')
drop-slice f o (suc n) zero k e = absurd (omega arith)
drop-slice f o (suc n) (suc m) k e =
    let o' : o + suc n ≡ o + 1 + n = omega arith in
    drop-slice f (o + 1) n m k (omega arith) ∙ ap (λ j. slice f j k) (sym o')

pub overwrite-below : (f : Contents) (o : ℕ) (b : List ℕ) (i : ℕ) → i < o → overwrite f o b i ≡ f i
unfolding overwrite
overwrite-below f o [] i h = refl
overwrite-below f o (x ∷ b) i h = ground (arith, overwrite-below f (o + 1) b i (omega arith))

pub overwrite-above :
    (f : Contents) (o : ℕ) (b : List ℕ) (i : ℕ) → o + length b ≤ i → overwrite f o b i ≡ f i
unfolding overwrite
overwrite-above f o [] i h = refl
overwrite-above f o (x ∷ b) i h = ground (arith, overwrite-above f (o + 1) b i (omega arith))

-- A byte of the result depends on the base only at its own position.
pub overwrite-base :
    (f g : Contents) (o : ℕ) (b : List ℕ) (i : ℕ)
    → f i ≡ g i
    → overwrite f o b i ≡ overwrite g o b i
unfolding overwrite
overwrite-base f g o [] i h = h
overwrite-base f g o (x ∷ b) i h = ground (arith, overwrite-base f g (o + 1) b i h)

-- Where the write covers the position, the base does not matter at all.
pub overwrite-inside :
    (f g : Contents) (o : ℕ) (b : List ℕ) (i : ℕ)
    → o ≤ i
    → i < o + length b
    → overwrite f o b i ≡ overwrite g o b i
unfolding overwrite
overwrite-inside f g o [] i p q = absurd (omega arith)
overwrite-inside f g o (x ∷ b) i p q = ground (arith, overwrite-inside f g (o + 1) b i)

pub overwrite-append :
    (f : Contents) (o m : ℕ) (a b : List ℕ) (i : ℕ)
    → o + length a ≡ m
    → overwrite (overwrite f o a) m b i ≡ overwrite f o (a ++ b) i
unfolding overwrite
overwrite-append f o m [] b i e = let e' : m ≡ o = omega arith in ap (λ j. overwrite f j b i) e'
overwrite-append f o m (x ∷ a) b i e = ground (
  arith,
  overwrite-append f (o + 1) m a b i (omega arith),
  overwrite-below (overwrite f o (x ∷ a)) m b i,
  overwrite-base (overwrite f o (x ∷ a)) (overwrite f (o + 1) a) m b i,
)

pub slice-overwrite_self :
    (f : Contents) (o : ℕ) (b : List ℕ) (n : ℕ) → length b ≡ n → slice (overwrite f o b) o n ≡ b
unfolding overwrite slice
slice-overwrite_self f o [] zero e = refl
slice-overwrite_self f o [] (suc n) e = absurd (omega arith)
slice-overwrite_self f o (x ∷ b) zero e = absurd (omega arith)
slice-overwrite_self f o (x ∷ b) (suc n) e = cc (
  slice-overwrite_self f (o + 1) b n (omega arith),
  slice-ext (overwrite f o (x ∷ b)) (overwrite f (o + 1) b) (o + 1) n (λ i p q. ground arith),
  head,
)
  where
    head : overwrite f o (x ∷ b) o ≡ x
    head = ground arith

-- A part of what was just written.
pub slice-overwrite_part :
    (f : Contents) (o : ℕ) (b : List ℕ) (m n p : ℕ)
    → m + n ≤ length b
    → o + m ≡ p
    → slice (overwrite f o b) p n ≡ take n (drop m b)
slice-overwrite_part f o b m n p h e = cc (
  take-slice (overwrite f o b) (o + m) n (length b - m) (omega arith),
  drop-slice (overwrite f o b) o m (length b) (length b - m) (omega arith),
  slice-overwrite_self f o b (length b) refl,
  e,
)
