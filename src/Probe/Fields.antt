-- ===== src/Probe/Fields.antt =====
-- The fields of a superblock, as src/probe.rs reads them, and tests on its bytes.
use Prim.Native.Nat.{bit_and}
use winluks.Base.{
  ℕ, ◌+◌, ◌-◌, ◌*◌, ◌^◌, ◌≡◌, refl, Bool, true, false, ◌&&◌, ◌||◌, List, [], ◌∷◌, arith,
}
use winluks.Base.{◌==◌, ◌!=◌, get_or, take, drop}

-- `b[p]`. The callers check the length of `b` first, so every position is in bounds.
abbrev pub byte : List ℕ → ℕ → ℕ
byte b p = get_or b p 0

unfoldable pub u16le : List ℕ → ℕ → ℕ
u16le b p = byte b p + 2 ^ 8 * byte b (p + 1)

unfoldable pub u32le : List ℕ → ℕ → ℕ
unfolding u16le
u32le b p = u16le b p + 2 ^ 16 * u16le b (p + 2)

unfoldable pub u64le : List ℕ → ℕ → ℕ
unfolding u32le
u64le b p = u32le b p + 2 ^ 32 * u32le b (p + 4)

-- `b[from..to].iter().any(|b| *b != 0)`
abbrev any_nonzero : List ℕ → Bool
any_nonzero [] = false
any_nonzero (x ∷ xs) = x != 0 || any_nonzero xs

unfoldable pub has_nonzero : List ℕ → ℕ → ℕ → Bool
has_nonzero b from to = any_nonzero (take (to - from) (drop from b))

-- `x & mask != 0`
abbrev pub has_bits : ℕ → ℕ → Bool
has_bits x mask = bit_and x mask != 0

-- `!x` in 32 and in 64 bits
abbrev pub not32 : ℕ → ℕ
not32 x = 2 ^ 32 - 1 - x

abbrev pub not64 : ℕ → ℕ
not64 x = 2 ^ 64 - 1 - x

-- Equality of two slices.
unfoldable pub same_bytes : List ℕ → List ℕ → Bool
same_bytes [] [] = true
same_bytes [] (y ∷ ys) = false
same_bytes (x ∷ xs) [] = false
same_bytes (x ∷ xs) (y ∷ ys) = x == y && same_bytes xs ys

pub same_bytes-eq : (xs ys : List ℕ) → same_bytes xs ys ≡ true → xs ≡ ys
unfolding same_bytes
same_bytes-eq [] [] h = refl
same_bytes-eq [] (y ∷ ys) h = absurd (ground arith)
same_bytes-eq (x ∷ xs) [] h = absurd (ground arith)
same_bytes-eq (x ∷ xs) (y ∷ ys) h = ground (arith, same_bytes-eq xs ys)

pub same_bytes_refl : (xs : List ℕ) → same_bytes xs xs ≡ true
unfolding same_bytes
same_bytes_refl [] = refl
same_bytes_refl (x ∷ xs) = ground (arith, same_bytes_refl xs)
