-- ===== src/Metadata/Names.antt =====
-- The names of keyslots that src/metadata.rs accepts: no keyslot takes the place of another.
use winluks.Base.{String, ℕ, ◌+◌, ◌≡◌, ◌≢◌, refl, List, [], ◌∷◌, Option, none, length, ◌++◌, arith}
use winluks.Error.{ok, >>=-ok, reject_if-ok, resource_limit}
use winluks.Metadata.Fields.{Object, id, insert_id, lookup_id}
use winluks.Metadata.Decimals.{id-injective}
use winluks.Metadata.Keyslots.{Keyslot, Range, keyslot, keyslot_loop, keyslots}

-- None of the fields has the name.
abbrev pub IsNew : String → Object → Type 0
IsNew k [] = Unit
IsNew k ((j, v) ∷ o) = (k ≢ j) × IsNew k o

-- No name comes twice.
abbrev pub AllNew : Object → Type 0
AllNew [] = Unit
AllNew ((k, v) ∷ o) = IsNew k o × AllNew o

module _ {V : Type 0} where
  lookup_id-insert_id :
      (n i : ℕ) (v : V) (m : List (ℕ × V))
      → n ≢ i
      → lookup_id n m ≡ none
      → lookup_id n (insert_id i v m) ≡ none
  unfolding lookup_id insert_id
  lookup_id-insert_id n i v [] d e = ground arith
  lookup_id-insert_id n i v ((j, w) ∷ m) d e = ground (arith, lookup_id-insert_id n i v m d)

  length-insert_id :
      (i : ℕ) (v : V) (m : List (ℕ × V))
      → lookup_id i m ≡ none
      → length (insert_id i v m) ≡ length m + 1
  unfolding lookup_id insert_id
  length-insert_id i v [] e = refl
  length-insert_id i v ((j, w) ∷ m) e = ground (arith, length-insert_id i v m)

-- The numbers of the names are still free.
abbrev AllFree : Object → List (ℕ × Keyslot) → Type 0
AllFree [] parsed = Unit
AllFree ((k, v) ∷ o) parsed =
    ((n : ℕ) → id k 31 ≡ ok n → lookup_id n parsed ≡ none) × AllFree o parsed

AllFree-insert_id :
    (o : Object) (k : String) (i : ℕ) (s : Keyslot) (parsed : List (ℕ × Keyslot))
    → id k 31 ≡ ok i
    → IsNew k o
    → AllFree o parsed
    → AllFree o (insert_id i s parsed)
AllFree-insert_id [] k i s parsed e d f = tt
AllFree-insert_id ((j, v) ∷ o) k i s parsed e d f = (
  λ n p.
      lookup_id-insert_id n i s parsed (λ q. d.0 (id-injective k j 31 i e (cc (p, q)))) (f.0 n p),
  AllFree-insert_id o k i s parsed e d.1 f.1,
)

module _ (decode64 : String → Option (List ℕ)) (area_start area_end : ℕ) where
  keyslot_loop-length :
      (keys : Object) (parsed out : List (ℕ × Keyslot)) (ranges : List Range)
      → AllNew keys
      → AllFree keys parsed
      → keyslot_loop decode64 area_start area_end keys parsed ranges ≡ ok out
      → length out ≡ length parsed + length keys
  unfolding keyslot_loop
  keyslot_loop-length [] parsed out ranges d f e =
      let same : parsed ≡ out = cc in ground (arith, same)
  keyslot_loop-length ((k, v) ∷ keys) parsed out ranges d f e =
      let i = >>=-ok (id k 31) _ e in
      let s = >>=-ok (keyslot decode64 area_start area_end v ranges) _ i.2 in
      let rest =
        keyslot_loop-length keys (insert_id i.0 s.0.0 parsed) out (ranges ++ s.0.1 ∷ []) d.1
          (AllFree-insert_id keys k i.0 s.0.0 parsed i.1 d.0 f.1) s.2 in
      omega (arith, rest, length-insert_id i.0 s.0.0 parsed (f.0 i.0 i.1))

  AllFree-nil : (keys : Object) → AllFree keys []
  unfolding lookup_id
  AllFree-nil [] = tt
  AllFree-nil ((k, v) ∷ keys) = (λ n e. refl, AllFree-nil keys)

  -- From an object in which no name comes twice as many keyslots are accepted as it names: none
  -- takes the place of another.
  pub length-keyslots :
      (keys : Object) (parsed : List (ℕ × Keyslot))
      → AllNew keys
      → keyslots decode64 area_start area_end keys ≡ ok parsed
      → length parsed ≡ length keys
  unfolding keyslots
  length-keyslots keys parsed d e = omega (
    arith,
    keyslot_loop-length keys [] parsed [] d (AllFree-nil keys)
        (reject_if-ok _ resource_limit _ e).1,
  )
