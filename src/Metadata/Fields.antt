-- ===== src/Metadata/Fields.antt =====
-- Fields of the JSON objects of src/metadata.rs, and maps by number.
use Prim.Native.String.{String}
use winluks.Base.{
  str_eq, ℕ, ◌+◌, ◌-◌, ◌*◌, Bool, true, false, List, [], ◌∷◌, ◌++◌, not, ltb, leb, ◌==◌, ◌||◌, ◌&&◌,
}
use winluks.Base.{length, Option, none, some, if◌then◌else◌}
use winluks.Base.Words.{u64_size}
use winluks.Error.{Result, ok, err, ◌>>=◌, ◌>>◌, reject_if, ok_or}
use winluks.Error.{metadata_invalid, unsupported_profile, resource_limit}
use winluks.StrictJson.{
  Value, number, string, array, object, Items, nil, cons, Fields, end, field, codes,
}

-- The entries of a `Map<String, Value>` in the order of their keys.
abbrev pub Object : Type 0
Object = List (String × Value)

abbrev pub entries : Fields → Object
entries end = []
entries (field k v m) = (k, v) ∷ entries m

abbrev values : Items → List Value
values nil = []
values (cons x xs) = x ∷ values xs

-- `as_object`, `as_array`, `as_str`, `as_u64`, each with `ok_or(MetadataInvalid)`.
unfoldable pub as_object : Value → Result Object
as_object (object m) = ok (entries m)
as_object _ = err metadata_invalid

unfoldable pub as_array : Value → Result (List Value)
as_array (array xs) = ok (values xs)
as_array _ = err metadata_invalid

unfoldable pub as_str : Value → Result String
as_str (string s) = ok s
as_str _ = err metadata_invalid

unfoldable pub as_u64 : Value → Result ℕ
as_u64 (number n) = ok n
as_u64 _ = err metadata_invalid

-- `o.get(k)`
unfoldable pub get? : Object → String → Option Value
get? [] k = none
get? ((j, v) ∷ o) k = if str_eq j k then some v else get? o k

unfoldable pub get : Object → String → Result Value
get o k = ok_or (get? o k) metadata_invalid

abbrev pub text : Object → String → Result String
text o k = get o k >>= as_str

abbrev pub num : Object → String → Result ℕ
num o k = get o k >>= as_u64

abbrev is_digit : ℕ → Bool
is_digit c = leb b'0' c && leb c b'9'

abbrev pub all_digits : List ℕ → Bool
all_digits [] = true
all_digits (c ∷ cs) = is_digit c && all_digits cs

abbrev pub starts_with_zero : List ℕ → Bool
starts_with_zero [] = false
starts_with_zero (c ∷ cs) = c == b'0'

abbrev pub value_of : ℕ → List ℕ → ℕ
value_of n [] = n
value_of n (c ∷ cs) = value_of (n * 10 + (c - b'0')) cs

-- `decimal` on the bytes of the text; `parse` fails on what no `u64` holds.
abbrev pub decimal_codes : List ℕ → Result ℕ
decimal_codes cs = do
  reject_if (length cs == 0 || not (all_digits cs) || (ltb 1 (length cs) && starts_with_zero cs))
      metadata_invalid
  reject_if (not (ltb (value_of 0 cs) u64_size)) metadata_invalid
  ok (value_of 0 cs)

unfoldable pub decimal : String → Result ℕ
decimal s = decimal_codes (codes s)

abbrev pub dec : Object → String → Result ℕ
dec o k = text o k >>= decimal

abbrev contains_name : List String → String → Bool
contains_name [] k = false
contains_name (a ∷ as') k = str_eq a k || contains_name as' k

-- `only`: no key but the allowed ones
unfoldable pub only : Object → List String → Result (Unit {0})
only [] allowed = ok tt
only ((k, _) ∷ o) allowed =
    reject_if (not (contains_name allowed k)) unsupported_profile >> only o allowed

-- `b64`
abbrev pub b64 : (String → Option (List ℕ)) → Object → String → Result (List ℕ)
b64 decode64 o k = text o k >>= λ s. ok_or (decode64 s) metadata_invalid

unfoldable pub id : String → ℕ → Result ℕ
id s max = do n ← decimal s; reject_if (ltb max n) metadata_invalid; ok n

abbrev contains_number : List ℕ → ℕ → Bool
contains_number [] n = false
contains_number (x ∷ xs) n = x == n || contains_number xs n

-- The loop of `ids`.
unfoldable pub ids_loop : List Value → ℕ → List ℕ → Result (List ℕ)
ids_loop [] max out = ok out
ids_loop (x ∷ xs) max out = do
  s ← as_str x
  n ← id s max
  reject_if (contains_number out n) metadata_invalid
  ids_loop xs max (out ++ n ∷ [])

abbrev pub ids : Object → String → ℕ → Result (List ℕ)
ids o k max = get o k >>= as_array >>= λ xs. ids_loop xs max []

unfoldable pub bounded : Object → String → ℕ → Result ℕ
bounded o k max = do n ← num o k; reject_if (n == 0 || ltb max n) resource_limit; ok n

abbrev is_prefix : List ℕ → List ℕ → Bool
is_prefix [] ys = true
is_prefix (x ∷ xs) [] = false
is_prefix (x ∷ xs) (y ∷ ys) = x == y && is_prefix xs ys

abbrev has_infix : List ℕ → List ℕ → Bool
has_infix xs [] = is_prefix xs []
has_infix xs (y ∷ ys) = is_prefix xs (y ∷ ys) || has_infix xs ys

-- `s.contains(part)`
unfoldable pub contains_text : String → String → Bool
contains_text part s = has_infix (codes part) (codes s)

-- A `BTreeMap<u32, V>`: `insert`, `get` and `keys`.
module _ {V : Type 0} where
  unfoldable pub insert_id : ℕ → V → List (ℕ × V) → List (ℕ × V)
  insert_id k v [] = (k, v) ∷ []
  insert_id k v ((j, w) ∷ m) =
      if ltb k j
      then (k, v) ∷ (j, w) ∷ m
      else if k == j
      then (k, v) ∷ m
      else (j, w) ∷ insert_id k v m

  unfoldable pub lookup_id : ℕ → List (ℕ × V) → Option V
  lookup_id k [] = none
  lookup_id k ((j, w) ∷ m) = if k == j then some w else lookup_id k m

  abbrev pub ids_of : List (ℕ × V) → List ℕ
  ids_of [] = []
  ids_of ((k, _) ∷ m) = k ∷ ids_of m
