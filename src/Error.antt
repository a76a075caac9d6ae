-- ===== src/Error.antt =====
-- src/error.rs: the error codes, and the results of the program's functions.
use winluks.Base.{Bool, true, false, Option, none, some, ◌≡◌, refl}

pub data Error : Type 0 where
  metadata_invalid metadata_recovery_required unsupported_profile reencryption_unsupported : Error
  resource_limit unlock_failed backend_io invalid_range fs_type_mismatch fs_invalid : Error
  fs_recovery_required fs_unsupported_feature fs_driver_unavailable fs_gate_unpassed : Error
  writeback_failed unsupported_operation volume_discovery_failed unclean_close : Error
  device_publish_failed read_only stopping console_required crypto : Error

infixl 10 ◌>>=◌ ◌>>◌
-- `Result<T>`: what a function that cannot panic returns.
pub data Result {ℓ} (A : Type ℓ) : Type ℓ where
  err : Error → Result A
  ok : A → Result A

-- `?`: the rest of a function, unless there is an error
abbrev pub ◌>>=◌ {κ ν} : {S : Type κ} {T : Type ν} → Result S → (S → Result T) → Result T
err reason >>= next = err reason
ok value >>= next = next value

abbrev pub ◌>>◌ {ν} : {T : Type ν} → Result (Unit {0}) → Result T → Result T
first >> second = first >>= λ done. second

-- `if test { return Err(e) }`
abbrev pub reject_if : Bool → Error → Result (Unit {0})
reject_if true e = err e
reject_if false e = ok tt

-- `.ok_or(e)`
abbrev pub ok_or {ℓ} : {A : Type ℓ} → Option A → Error → Result A
ok_or none e = err e
ok_or (some a) e = ok a

-- How a call that reaches the backend ends: it may also panic. `unfinished` stands for a retry loop
-- that ran out of fuel.
pub data Outcome {ℓ} (A : Type ℓ) : Type ℓ where
  ok : A → Outcome A
  err : Error → Outcome A
  panic : Outcome A
  unfinished : Outcome A

-- Inversion of a chain that ends well.
pub >>=-ok {κ ν} :
    {S : Type κ} {T : Type ν} {out : T} (first : Result S) (next : S → Result T)
    → (first >>= next) ≡ ok out
    → (value : S) × (first ≡ ok value) × (next value ≡ ok out)
>>=-ok (err reason) f h = absurd (cc)
>>=-ok (ok value) f h = (value, refl, h)

pub reject_if-ok {ℓ} :
    {B : Type ℓ} (test : Bool) (e : Error) (m : Result B) {b : B}
    → (reject_if test e >> m) ≡ ok b
    → (test ≡ false) × (m ≡ ok b)
reject_if-ok true e m h = absurd (cc)
reject_if-ok false e m h = (refl, h)

-- What holds of the result of a chain, if it has one.
pub record Yields {ℓ κ} {A : Type ℓ} (P : A → Type κ) (r : Result A) : Type (ℓ ⊔ κ) where
  pub at : (a : A) → r ≡ ok a → P a

-- The rule for a step of a chain.
pub Yields-bind {ℓ κ ν} :
    {A : Type ℓ} {B : Type κ} {P : B → Type ν} (m : Result A) (f : A → Result B)
    → ((a : A) → m ≡ ok a → Yields P (f a))
    → Yields P (m >>= f)
Yields-bind (ok a) f h = h a refl
Yields-bind (err e) f h = record { at = λ a k. absurd (cc) }
