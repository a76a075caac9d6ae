-- ===== src/StrictJson/Distinct.antt =====
-- The keys of the documents that src/strict_json.rs accepts.
use text.Mathlib.TextEquality.{eq_iff}
use text.Mathlib.TextPositions.{eq_refl}
use winluks.Base.{
  String, ℕ, ◌+◌, ◌≡◌, refl, ap, Bool, true, false, ◌||◌, arith, Option, some, List, str_eq,
  Bool-cases, inl, inr,
}
use winluks.Error.{ok, metadata_invalid, reject_if-ok, >>=-ok}
use winluks.StrictJson.{Raw, raw_seq, raw_map}
use winluks.StrictJson.{RawItems, raw_nil, raw_cons, RawFields, raw_end, raw_field}
use winluks.StrictJson.{
  Value, Items, Fields, visit, visit_seq, visit_map, contains_key, insert, field, end, parse,
}

-- Whether one of the fields has the key.
unfoldable pub has_key : String → RawFields → Bool
has_key k raw_end = false
has_key k (raw_field j x m) = str_eq j k || has_key k m

-- No two fields of an object have the same key, at any depth.
abbrev mutual
  pub IsDistinct : Raw → Type 0
  IsDistinct (raw_seq xs) = AreDistinct xs
  IsDistinct (raw_map m) = HasDistinctKeys m
  IsDistinct _ = Unit

  pub AreDistinct : RawItems → Type 0
  AreDistinct raw_nil = Unit
  AreDistinct (raw_cons x xs) = IsDistinct x × AreDistinct xs

  pub HasDistinctKeys : RawFields → Type 0
  HasDistinctKeys raw_end = Unit
  HasDistinctKeys (raw_field k x m) = (has_key k m ≡ false) × IsDistinct x × HasDistinctKeys m

contains_key-insert_self :
    (k : String) (v : Value) (a : Fields) → contains_key k (insert k v a) ≡ true
unfolding contains_key insert
contains_key-insert_self k v end = ground (arith, eq_refl k)
contains_key-insert_self k v (field j w m) =
    ground (arith, eq_refl k, contains_key-insert_self k v m)

contains_key-insert :
    (k j : String) (v : Value) (a : Fields)
    → contains_key k a ≡ true
    → contains_key k (insert j v a) ≡ true
unfolding contains_key insert
contains_key-insert k j v end e = absurd (cc)
contains_key-insert k j v (field i w m) e = ground (arith, contains_key-insert k j v m)

-- A key that is there already does not come again.
has_key_fresh :
    (m : RawFields) (n : ℕ) (a v : Fields) (k : String)
    → contains_key k a ≡ true
    → visit_map n m a ≡ ok v
    → has_key k m ≡ false
unfolding visit has_key
has_key_fresh raw_end n a v k c e = refl
has_key_fresh (raw_field j x m) n a v k c e =
    let fresh = reject_if-ok (contains_key j a) metadata_invalid _ e in
    let value = >>=-ok (visit (n + 1) x) (λ w. visit_map n m (insert j w a)) fresh.1 in
    let rest =
      has_key_fresh m n (insert j value.0 a) v k (contains_key-insert k j value.0 a c) value.2 in
    elim (Bool-cases (str_eq j k)) [
      | inl same ↦
          let e' : j ≡ k = (eq_iff j k).0 same in
          absurd (cc (fresh.0, c, ap (λ s. contains_key s a) e'))
      | inr other ↦ ground (arith, rest, other)
    ]

abbrev mutual
  unfolding visit

  visit-IsDistinct : (raw : Raw) (n : ℕ) (v : Value) → visit n raw ≡ ok v → IsDistinct raw
  visit-IsDistinct (raw_seq xs) n v e =
      let items = >>=-ok (visit_seq n xs) _ (reject_if-ok _ metadata_invalid _ e).1 in
      visit_seq-AreDistinct xs n items.0 items.1
  visit-IsDistinct (raw_map m) n v e =
      let fields = >>=-ok (visit_map n m end) _ (reject_if-ok _ metadata_invalid _ e).1 in
      visit_map-HasDistinctKeys m n end fields.0 fields.1
  visit-IsDistinct raw n v e = tt

  visit_seq-AreDistinct :
      (xs : RawItems) (n : ℕ) (vs : Items) → visit_seq n xs ≡ ok vs → AreDistinct xs
  visit_seq-AreDistinct raw_nil n vs e = tt
  visit_seq-AreDistinct (raw_cons x xs) n vs e =
      let first = >>=-ok (visit (n + 1) x) _ e in
      let rest = >>=-ok (visit_seq n xs) _ first.2 in
      (visit-IsDistinct x (n + 1) first.0 first.1, visit_seq-AreDistinct xs n rest.0 rest.1)

  visit_map-HasDistinctKeys :
      (m : RawFields) (n : ℕ) (a v : Fields) → visit_map n m a ≡ ok v → HasDistinctKeys m
  visit_map-HasDistinctKeys raw_end n a v e = tt
  visit_map-HasDistinctKeys (raw_field k x m) n a v e =
      let fresh = reject_if-ok (contains_key k a) metadata_invalid _ e in
      let value = >>=-ok (visit (n + 1) x) (λ w. visit_map n m (insert k w a)) fresh.1 in
      (
        has_key_fresh m n (insert k value.0 a) v k (contains_key-insert_self k value.0 a) value.2,
        visit-IsDistinct x (n + 1) value.0 value.1,
        visit_map-HasDistinctKeys m n (insert k value.0 a) v value.2,
      )

-- No object of an accepted document has two fields of the same key, at any depth.
pub parse-IsDistinct :
    (read : List ℕ → Option Raw) (bytes : List ℕ) (raw : Raw) (v : Value)
    → read bytes ≡ some raw
    → parse read bytes ≡ ok v
    → IsDistinct raw
unfolding parse
parse-IsDistinct read bytes raw v r e = visit-IsDistinct raw 0 v (ground arith)
