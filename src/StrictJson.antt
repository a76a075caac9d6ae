-- ===== src/StrictJson.antt =====
-- src/strict_json.rs: JSON with a bounded depth, no duplicate keys and no fractions. The grammar is
-- serde_json's: a document arrives as the calls that it makes on the visitor, a `Raw` tree.
pub mod Strict
pub mod Distinct
use Prim.Native.Char.{code}
use Prim.Native.String.{String}
use winluks.Base.{
  str_eq, ℕ, suc, ◌+◌, Bool, true, false, List, [], ◌∷◌, ltb, ◌==◌, ◌||◌, ◌&&◌, if◌then◌else◌,
  Option, none, some,
}
use winluks.Error.{Result, ok, err, ◌>>=◌, ◌>>◌, reject_if, ok_or, metadata_invalid}

-- `serde_json::Value`, without fractions. `negative n` is -(n + 1).
mutual
  pub data Value : Type 0 where
    null : Value
    boolean : Bool → Value
    number : ℕ → Value
    negative : ℕ → Value
    string : String → Value
    array : Items → Value
    object : Fields → Value

  pub data Items : Type 0 where
    nil : Items
    cons : Value → Items → Items

  -- The entries of a `Map`, in the order of their keys.
  pub data Fields : Type 0 where
    end : Fields
    field : String → Value → Fields → Fields

-- What the deserializer finds, in the order of the text.
mutual
  pub data Raw : Type 0 where
    raw_null raw_float : Raw
    raw_boolean : Bool → Raw
    raw_number : ℕ → Raw
    raw_negative : ℕ → Raw
    raw_text : String → Raw
    raw_seq : RawItems → Raw
    raw_map : RawFields → Raw

  pub data RawItems : Type 0 where
    raw_nil : RawItems
    raw_cons : Raw → RawItems → RawItems

  pub data RawFields : Type 0 where
    raw_end : RawFields
    raw_field : String → Raw → RawFields → RawFields

abbrev pub codes : String → List ℕ
codes String.[] = []
codes (String.◌∷◌ c s) = code c ∷ codes s

-- The order of the keys of a `BTreeMap<String, _>`.
abbrev precedes : List ℕ → List ℕ → Bool
precedes xs [] = false
precedes [] (y ∷ ys) = true
precedes (x ∷ xs) (y ∷ ys) = ltb x y || (x == y && precedes xs ys)

unfoldable pub contains_key : String → Fields → Bool
contains_key k end = false
contains_key k (field j v m) = str_eq j k || contains_key k m

unfoldable pub insert : String → Value → Fields → Fields
insert k v end = field k v end
insert k v (field j w m) =
    if precedes (codes k) (codes j) then field k v (field j w m) else field j w (insert k v m)

-- `Node(depth)`: `visit` with the check of `deserialize` in front.
unfoldable mutual
  pub visit : ℕ → Raw → Result Value
  visit depth raw_null = reject_if (ltb 32 depth) metadata_invalid >> ok null
  visit depth raw_float = err metadata_invalid
  visit depth (raw_boolean b) = reject_if (ltb 32 depth) metadata_invalid >> ok (boolean b)
  visit depth (raw_number n) = reject_if (ltb 32 depth) metadata_invalid >> ok (number n)
  visit depth (raw_negative n) = reject_if (ltb 32 depth) metadata_invalid >> ok (negative n)
  visit depth (raw_text s) = reject_if (ltb 32 depth) metadata_invalid >> ok (string s)
  visit depth (raw_seq xs) =
      reject_if (ltb 32 depth) metadata_invalid >> (visit_seq depth xs >>= λ v. ok (array v))
  visit depth (raw_map m) =
      reject_if (ltb 32 depth) metadata_invalid >> (visit_map depth m end >>= λ v. ok (object v))

  pub visit_seq : ℕ → RawItems → Result Items
  visit_seq depth raw_nil = ok nil
  visit_seq depth (raw_cons x xs) =
      visit (depth + 1) x >>= λ v. visit_seq depth xs >>= λ vs. ok (cons v vs)

  pub visit_map : ℕ → RawFields → Fields → Result Fields
  visit_map depth raw_end m = ok m
  visit_map depth (raw_field k x rest) m =
      reject_if (contains_key k m) metadata_invalid
      >> (visit (depth + 1) x >>= λ v. visit_map depth rest (insert k v m))

-- `parse`: `read` is the deserializer with its check for trailing characters.
unfoldable pub parse : (List ℕ → Option Raw) → List ℕ → Result Value
parse read bytes = do raw ← ok_or (read bytes) metadata_invalid; visit 0 raw

-- `==` of values, which `!=` on the two JSON areas asks for.
unfoldable mutual
  pub same_value : Value → Value → Bool
  same_value null null = true
  same_value (boolean true) (boolean b) = b
  same_value (boolean false) (boolean b) = if b then false else true
  same_value (number n) (number m) = n == m
  same_value (negative n) (negative m) = n == m
  same_value (string s) (string t) = str_eq s t
  same_value (array xs) (array ys) = same_items xs ys
  same_value (object m) (object k) = same_fields m k
  same_value _ _ = false

  same_items : Items → Items → Bool
  same_items nil nil = true
  same_items (cons x xs) (cons y ys) = same_value x y && same_items xs ys
  same_items _ _ = false

  same_fields : Fields → Fields → Bool
  same_fields end end = true
  same_fields (field k v m) (field j w n) = str_eq k j && same_value v w && same_fields m n
  same_fields _ _ = false
