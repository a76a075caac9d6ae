-- ===== src/StrictJson/Strict.antt =====
-- The depth of the documents that src/strict_json.rs accepts.
use Prim.Native.Nat.{max}
use winluks.Base.{ℕ, suc, ◌+◌, ◌≤◌, ◌≡◌, arith, Option, some, List}
use winluks.Error.{ok, metadata_invalid, reject_if-ok, >>=-ok}
use winluks.StrictJson.{Raw, raw_seq, raw_map}
use winluks.StrictJson.{RawItems, raw_nil, raw_cons, RawFields, raw_end, raw_field}
use winluks.StrictJson.{
  Value, Items, Fields, visit, visit_seq, visit_map, contains_key, insert, end, parse,
}

-- How deep a document nests.
unfoldable mutual
  pub depth : Raw → ℕ
  depth (raw_seq xs) = suc (depth_items xs)
  depth (raw_map m) = suc (depth_fields m)
  depth _ = 0

  pub depth_items : RawItems → ℕ
  depth_items raw_nil = 0
  depth_items (raw_cons x xs) = max (depth x) (depth_items xs)

  pub depth_fields : RawFields → ℕ
  depth_fields raw_end = 0
  depth_fields (raw_field k x m) = max (depth x) (depth_fields m)

mutual
  unfolding visit depth

  visit-depth : (raw : Raw) (n : ℕ) (v : Value) → visit n raw ≡ ok v → n + depth raw ≤ 33
  visit-depth (raw_seq xs) n v e = grind (arith, visit_seq-depth xs n)
  visit-depth (raw_map m) n v e = grind (arith, visit_map-depth m n end)
  visit-depth raw n v e = ground arith

  visit_seq-depth :
      (xs : RawItems) (n : ℕ) (vs : Items)
      → n ≤ 32
      → visit_seq n xs ≡ ok vs
      → n + depth_items xs ≤ 32
  visit_seq-depth raw_nil n vs h e = omega arith
  visit_seq-depth (raw_cons x xs) n vs h e =
      grind (arith, visit-depth x (n + 1), visit_seq-depth xs n)

  visit_map-depth :
      (m : RawFields) (n : ℕ) (a v : Fields)
      → n ≤ 32
      → visit_map n m a ≡ ok v
      → n + depth_fields m ≤ 32
  visit_map-depth raw_end n a v h e = omega arith
  visit_map-depth (raw_field k x m) n a v h e =
      let fresh = reject_if-ok (contains_key k a) metadata_invalid _ e in
      let value = >>=-ok (visit (n + 1) x) (λ w. visit_map n m (insert k w a)) fresh.1 in
      omega (
        arith,
        visit-depth x (n + 1) value.0 value.1,
        visit_map-depth m n (insert k value.0 a) v h value.2,
      )

-- An accepted document nests at most 33 arrays and objects inside one another.
pub parse-depth :
    (read : List ℕ → Option Raw) (bytes : List ℕ) (raw : Raw) (v : Value)
    → read bytes ≡ some raw
    → parse read bytes ≡ ok v
    → depth raw ≤ 33
unfolding parse
parse-depth read bytes raw v r e = ground (arith, visit-depth raw 0 v)
