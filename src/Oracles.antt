-- ===== src/Oracles.antt =====
-- The oracles of examples/: programs that run the library against a fixture and assert what they see.
pub mod Reopening
pub mod Digest
pub mod Rw
pub mod Ro
use winluks.Base.{ℕ, ◌+◌, ◌-◌, ◌*◌, ◌/◌, ◌≡◌, ◌≢◌, refl, Bool, true, false, List, [], ◌∷◌, arith}
use winluks.Base.{ltb, Option, none, some, if◌then◌else◌, replicate, String, str_eq}
use winluks.Error.{Error, Result, Outcome, ok, err, panic, unfinished}
use winluks.Image.{Image, AccessMode}
use winluks.Image.Os.{Backend}
use winluks.Probe.{Filesystem}
use winluks.Image.Open.{FileSystem, open_unix, open_windows}

-- How the run of an oracle ends: with a value, by an error that `main` returns, by an assertion that
-- fails, or by a panic below it. `endless` stands for a loop that ran out of fuel.
pub data Trial (A : Type 0) : Type 0 where
  done : A → Trial A
  quit refuted panicked endless : Trial A

-- `?` on a result of the library
abbrev pub attempt : {A C : Type 0} → Outcome A → (A → Trial C) → Trial C
attempt (ok a) next = next a
attempt (err e) next = quit
attempt panic next = panicked
attempt unfinished next = endless

abbrev pub attempt_open : {A C : Type 0} → Result A → (A → Trial C) → Trial C
attempt_open (ok a) next = next a
attempt_open (err e) next = quit

-- `.ok_or(..)?`
abbrev pub require : {A C : Type 0} → Option A → (A → Trial C) → Trial C
require (some a) next = next a
require none next = quit

abbrev pub and_then : {A C : Type 0} → Trial A → (A → Trial C) → Trial C
and_then (done a) next = next a
and_then quit next = quit
and_then refuted next = refuted
and_then panicked next = panicked
and_then endless next = endless

-- `assert!`
abbrev pub claim : {C : Type 0} → Bool → Trial C → Trial C
claim true next = next
claim false next = refuted

-- `assert_eq!(.., Err(..))`
abbrev pub expect : {A C : Type 0} → (Error → Bool) → Outcome A → Trial C → Trial C
expect which (ok a) next = refuted
expect which (err e) next = claim (which e) next
expect which panic next = panicked
expect which unfinished next = endless

-- `assert!(.. .is_ok())`
abbrev pub succeed : {A C : Type 0} → Outcome A → Trial C → Trial C
succeed (ok a) next = next
succeed (err e) next = refuted
succeed panic next = panicked
succeed unfinished next = endless

-- `.unwrap()`
abbrev pub unwrap : {A C : Type 0} → Option A → (A → Trial C) → Trial C
unwrap (some a) next = next a
unwrap none next = panicked

abbrev pub is_read_only : Error → Bool
is_read_only Error.read_only = true
is_read_only _ = false

abbrev pub is_unlock_failed : Error → Bool
is_unlock_failed Error.unlock_failed = true
is_unlock_failed _ = false

abbrev pub is_invalid_range : Error → Bool
is_invalid_range Error.invalid_range = true
is_invalid_range _ = false

abbrev pub is_unsupported_operation : Error → Bool
is_unsupported_operation Error.unsupported_operation = true
is_unsupported_operation _ = false

abbrev pub is_stopping : Error → Bool
is_stopping Error.stopping = true
is_stopping _ = false

-- A running SHA-256 of OpenSSL; `none` is an error.
pub record Hasher : Type 1 where
  pub State : Type 0
  pub new : Option State
  pub update : State → List ℕ → Option State
  pub finish : State → Option (List ℕ)

-- Where an image lies: its path, and the build that opens it.
pub record Place : Type 0 where
  pub windows : Bool
  pub path : List ℕ

-- `Image::open_with_mode`
abbrev pub open_image : {B : Backend} → FileSystem B → Place → AccessMode → Result (Image B)
open_image F place mode =
    if place.windows then open_windows F (some place.path) mode else open_unix F place.path mode

abbrev pub mebibyte : ℕ
mebibyte = 1024 * 1024

abbrev pub smaller : ℕ → ℕ → ℕ
smaller a b = if ltb b a then b else a

-- `[0; 512]`
abbrev pub zeros : List ℕ
zeros = replicate 512 0

abbrev pub filesystem_of : Option String → Option Filesystem
filesystem_of none = none
filesystem_of (some s) =
    if str_eq s "btrfs"
    then some Filesystem.btrfs
    else if str_eq s "ext4"
    then some Filesystem.ext4
    else none

-- No assertion has failed, no loop has run out of fuel, and the value, if there is one, is as stated.
pub record Upholds {A : Type 0} (Q : A → Type 0) (t : Trial A) : Type 0 where
  pub kept : t ≢ refuted
  pub ends : t ≢ endless
  pub result : (a : A) → t ≡ done a → Q a

pub Upholds-done : {A : Type 0} {Q : A → Type 0} (a : A) → Q a → Upholds Q (done a)
Upholds-done {Q} a q = record {
  kept = λ e. cc;
  ends = λ e. cc;
  result = λ b e. let same : a ≡ b = ground (arith, e) in rw (← same) q;
}

pub Upholds-map :
    {A : Type 0} {R Q : A → Type 0} {t : Trial A}
    → ((a : A) → R a → Q a)
    → Upholds R t
    → Upholds Q t
Upholds-map f u = record { kept = u.kept; ends = u.ends; result = λ a e. f a (u.result a e) }

pub Upholds-quit : {A : Type 0} {Q : A → Type 0} → Upholds Q quit
Upholds-quit = record { kept = λ e. cc; ends = λ e. cc; result = λ b e. absurd (cc) }

pub Upholds-panicked : {A : Type 0} {Q : A → Type 0} → Upholds Q panicked
Upholds-panicked = record { kept = λ e. cc; ends = λ e. cc; result = λ b e. absurd (cc) }

module _ {A C : Type 0} {Q : C → Type 0} where
  pub attempt-Upholds :
      (r : Outcome A) (next : A → Trial C)
      → r ≢ unfinished
      → ((a : A) → r ≡ ok a → Upholds Q (next a))
      → Upholds Q (attempt r next)
  attempt-Upholds (ok a) next n h = h a refl
  attempt-Upholds (err e) next n h = Upholds-quit
  attempt-Upholds panic next n h = Upholds-panicked
  attempt-Upholds unfinished next n h = absurd (n refl)

  pub attempt_open-Upholds :
      (r : Result A) (next : A → Trial C)
      → ((a : A) → r ≡ ok a → Upholds Q (next a))
      → Upholds Q (attempt_open r next)
  attempt_open-Upholds (ok a) next h = h a refl
  attempt_open-Upholds (err e) next h = Upholds-quit

  pub require-Upholds :
      (r : Option A) (next : A → Trial C)
      → ((a : A) → r ≡ some a → Upholds Q (next a))
      → Upholds Q (require r next)
  require-Upholds (some a) next h = h a refl
  require-Upholds none next h = Upholds-quit

  pub and_then-Upholds :
      {R : A → Type 0} (t : Trial A) (next : A → Trial C)
      → Upholds R t
      → ((a : A) → t ≡ done a → R a → Upholds Q (next a))
      → Upholds Q (and_then t next)
  and_then-Upholds (done a) next u h = h a refl (u.result a refl)
  and_then-Upholds quit next u h = Upholds-quit
  and_then-Upholds refuted next u h = absurd (u.kept refl)
  and_then-Upholds panicked next u h = Upholds-panicked
  and_then-Upholds endless next u h = absurd (u.ends refl)

  pub succeed-Upholds :
      (r : Outcome A) (next : Trial C)
      → r ≢ unfinished
      → ((e : Error) → r ≢ err e)
      → Upholds Q next
      → Upholds Q (succeed r next)
  succeed-Upholds (ok a) next n h u = u
  succeed-Upholds (err e) next n h u = absurd (h e refl)
  succeed-Upholds panic next n h u = Upholds-panicked
  succeed-Upholds unfinished next n h u = absurd (n refl)

  pub unwrap-Upholds :
      (r : Option A) (next : A → Trial C)
      → ((a : A) → r ≡ some a → Upholds Q (next a))
      → Upholds Q (unwrap r next)
  unwrap-Upholds (some a) next h = h a refl
  unwrap-Upholds none next h = Upholds-panicked

  pub expect-Upholds :
      (which : Error → Bool) (r : Outcome A) (next : Trial C) (e : Error)
      → r ≡ err e
      → which e ≡ true
      → Upholds Q next
      → Upholds Q (expect which r next)
  expect-Upholds which r next e q w u = rw (q, w) u

pub claim-Upholds :
    {C : Type 0} {Q : C → Type 0} (b : Bool) (next : Trial C)
    → b ≡ true
    → Upholds Q next
    → Upholds Q (claim b next)
claim-Upholds true next e u = u
claim-Upholds false next e u = absurd (cc)
