-- ===== src/Image/Loops.antt =====
-- The retry loops of src/image.rs: rules that carry a property through the rounds of a loop.
use winluks.Base.{ℕ, zero, suc, ◌+◌, ◌-◌, ◌≤◌, ◌<◌, ◌≡◌, ◌≢◌, List, ◌++◌, arith}
use winluks.Base.{length, drop, length-append}
use winluks.Error.{ok, panic, unfinished}
use winluks.Image.Os.{Backend, IsPatient, IsCalm, done, interrupted}
use winluks.Image.{write_loop, read_loop}

module _ (B : Backend) (offset : ℕ) (buf : List ℕ) where
  -- What every single write keeps, the loop keeps, however it ends.
  pub write_loop_keeps :
      (Q : B.File → Type 0)
      → ((f : B.File) (count : ℕ)
          → count < length buf
          → Q f
          → Q (B.write_at f (offset + count) (drop count buf)).1)
      → (fuel : ℕ) (f : B.File) (count : ℕ) → Q f
      → Q (write_loop B fuel f offset buf count).1
  unfolding write_loop
  write_loop_keeps Q keep zero f count q = q
  write_loop_keeps Q keep (suc fuel) f count q =
      grind
        (arith, keep f count, λ (g : B.File) (c : ℕ) (h : Q g). write_loop_keeps Q keep fuel g c h)

  -- A loop that ends well has carried `P` from round to round, up to a count of all the bytes.
  pub write_loop_inv :
      (P : B.File → ℕ → Type 0) (R : B.File → Type 0)
      → ((f : B.File) (count n : ℕ)
          → P f count
          → count < length buf
          → (B.write_at f (offset + count) (drop count buf)).0 ≡ done n
          → P (B.write_at f (offset + count) (drop count buf)).1 (count + n))
      → ((f : B.File) (count : ℕ)
          → P f count
          → (B.write_at f (offset + count) (drop count buf)).0 ≡ interrupted
          → P (B.write_at f (offset + count) (drop count buf)).1 count)
      → ((f : B.File) (count : ℕ) → P f count → length buf ≤ count → R f)
      → (fuel : ℕ) (f : B.File) (count : ℕ) → P f count
      → (write_loop B fuel f offset buf count).0 ≡ ok tt
      → R (write_loop B fuel f offset buf count).1
  unfolding write_loop
  write_loop_inv P R more again finish zero f count p e = absurd (cc)
  write_loop_inv P R more again finish (suc fuel) f count p e = grind (
    arith,
    more f count,
    again f count,
    finish f count,
    λ (g : B.File) (c : ℕ) (h : P g c). write_loop_inv P R more again finish fuel g c h,
  )

  pub write_loop-ne-unfinished :
      IsPatient B
      → (fuel : ℕ) (f : B.File) (count : ℕ) → length buf - count + B.interrupts f < fuel
      → (write_loop B fuel f offset buf count).0 ≢ unfinished
  unfolding write_loop
  write_loop-ne-unfinished patient zero f count h = elim h [ ]
  write_loop-ne-unfinished patient (suc fuel) f count h = grind (
    arith,
    patient.write_at-interrupts f (offset + count) (drop count buf),
    patient.write_at-interrupted f (offset + count) (drop count buf),
    λ (g : B.File) (c : ℕ) (k : length buf - c + B.interrupts g < fuel).
        write_loop-ne-unfinished patient fuel g c k,
  )

module _ (B : Backend) (offset total : ℕ) where
  pub read_loop_keeps :
      (Q : B.File → Type 0)
      → ((f : B.File) (o n : ℕ) → o + n ≡ offset + total → Q f → Q (B.read_at f o n).1)
      → (fuel : ℕ) (f : B.File) (buf : List ℕ) → Q f
      → Q (read_loop B fuel f offset total buf).1
  unfolding read_loop
  read_loop_keeps Q keep zero f buf q = q
  read_loop_keeps Q keep (suc fuel) f buf q = grind (
    arith,
    keep f (offset + length buf) (total - length buf),
    λ (g : B.File) (b : List ℕ) (h : Q g). read_loop_keeps Q keep fuel g b h,
  )

  pub read_loop-ne-unfinished :
      IsPatient B
      → (fuel : ℕ) (f : B.File) (buf : List ℕ) → total - length buf + B.interrupts f < fuel
      → (read_loop B fuel f offset total buf).0 ≢ unfinished
  unfolding read_loop
  read_loop-ne-unfinished patient zero f buf h = elim h [ ]
  read_loop-ne-unfinished patient (suc fuel) f buf h = grind (
    arith,
    length-append {0},
    patient.read_at-interrupts f (offset + length buf) (total - length buf),
    patient.read_at-interrupted f (offset + length buf) (total - length buf),
    λ (g : B.File) (b : List ℕ) (k : total - length b + B.interrupts g < fuel).
        read_loop-ne-unfinished patient fuel g b k,
  )

  -- The same for a loop that reads: it returns what was read, all `total` bytes.
  pub read_loop_inv :
      (P : B.File → List ℕ → Type 0)
      → ((f : B.File) (buf bytes : List ℕ)
          → P f buf
          → length buf < total
          → (B.read_at f (offset + length buf) (total - length buf)).0 ≡ done bytes
          → P (B.read_at f (offset + length buf) (total - length buf)).1 (buf ++ bytes))
      → ((f : B.File) (buf : List ℕ)
          → P f buf
          → P (B.read_at f (offset + length buf) (total - length buf)).1 buf)
      → (fuel : ℕ) (f : B.File) (buf out : List ℕ) → P f buf
      → (read_loop B fuel f offset total buf).0 ≡ ok out
      → P (read_loop B fuel f offset total buf).1 out × (total ≤ length out)
  unfolding read_loop
  read_loop_inv P more again zero f buf out p e = absurd (cc)
  read_loop_inv P more again (suc fuel) f buf out p e = grind (
    arith,
    more f buf,
    again f buf,
    λ (g : B.File) (b : List ℕ) (h : P g b). read_loop_inv P more again fuel g b out h,
  )

module _ (B : Backend) (calm : IsCalm B) (offset : ℕ) where
  pub write_loop-ne-panic :
      (buf : List ℕ) (fuel : ℕ) (f : B.File) (count : ℕ)
      → (write_loop B fuel f offset buf count).0 ≢ panic
  unfolding write_loop
  write_loop-ne-panic buf zero f count e = cc
  write_loop-ne-panic buf (suc fuel) f count e = grind (
    arith,
    calm.write_at-calm f (offset + count) (drop count buf),
    λ (g : B.File) (c : ℕ). write_loop-ne-panic buf fuel g c,
  )

  pub read_loop-ne-panic :
      (total fuel : ℕ) (f : B.File) (buf : List ℕ) → (read_loop B fuel f offset total buf).0 ≢ panic
  unfolding read_loop
  read_loop-ne-panic total zero f buf e = cc
  read_loop-ne-panic total (suc fuel) f buf e = grind (
    arith,
    calm.read_at-calm f (offset + length buf) (total - length buf),
    λ (g : B.File) (b : List ℕ). read_loop-ne-panic total fuel g b,
  )
