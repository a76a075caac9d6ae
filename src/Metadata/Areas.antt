-- ===== src/Metadata/Areas.antt =====
-- Where the keyslots that src/metadata.rs accepts keep their key material.
use winluks.Base.{
  ℕ, ◌+◌, ◌*◌, ◌%◌, ◌≤◌, ◌<◌, ◌≡◌, ◌⊎◌, inl, inr, true, false, List, [], ◌∷◌, ◌++◌, String, arith,
}
use winluks.Base.{Bool, Option, ltb, if◌then◌else◌, ◌==◌}
use winluks.Error.{ok, Yields, Yields-bind, >>=-ok, reject_if-ok, ◌>>=◌, resource_limit}
use winluks.StrictJson.{Value}
use winluks.Crypto.{parse_hash}
use winluks.Metadata.Fields.{Object, as_object, get, get?, text, num, insert_id, id}
use winluks.Metadata.Kdfs.{parse_kdf}
use winluks.Metadata.Keyslots.{
  Keyslot, Range, overlaps, check_kind, check_priority, check_af, area_sizes, area_range, keyslot,
  keyslot_loop, keyslots,
}

-- The bytes of a keyslot's material, all of them in the keyslots area, from a block boundary on.
pub record IsWithin (area_start area_end : ℕ) (k : Keyslot) : Type 0 where
  pub behind : area_start ≤ k.area_offset
  pub before : k.area_offset + k.key_size * 4000 ≤ area_end
  pub aligned : k.area_offset % 4096 ≡ 0
  pub some_key : 0 < k.key_size

abbrev pub Apart : Keyslot → Keyslot → Type 0
Apart j k =
    (j.area_offset + j.key_size * 4000 ≤ k.area_offset)
    ⊎ (k.area_offset + k.key_size * 4000 ≤ j.area_offset)

abbrev pub All : (Keyslot → Type 0) → List (ℕ × Keyslot) → Type 0
All P [] = Unit
All P ((i, k) ∷ m) = P k × All P m

-- No two keyslots share a byte.
abbrev pub AllApart : List (ℕ × Keyslot) → Type 0
AllApart [] = Unit
AllApart ((i, k) ∷ m) = All (Apart k) m × AllApart m

-- The material lies in one of the ranges.
abbrev Covered : List Range → Keyslot → Type 0
Covered [] k = ⊥
Covered (r ∷ rs) k =
    ((r.start ≤ k.area_offset) × (k.area_offset + k.key_size * 4000 ≤ r.stop)) ⊎ Covered rs k

Covered-append :
    (rs : List Range) (r : Range) (k : Keyslot) → Covered rs k → Covered (rs ++ r ∷ []) k
Covered-append [] r k c = absurd c
Covered-append (q ∷ rs) r k (inl here) = inl here
Covered-append (q ∷ rs) r k (inr there) = inr (Covered-append rs r k there)

Covered-last :
    (rs : List Range) (r : Range) (k : Keyslot)
    → r.start ≤ k.area_offset
    → k.area_offset + k.key_size * 4000 ≤ r.stop
    → Covered (rs ++ r ∷ []) k
Covered-last [] r k p q = inl (p, q)
Covered-last (x ∷ rs) r k p q = inr (Covered-last rs r k p q)

Apart-of_overlaps :
    (rs : List Range) (r : Range) (j k : Keyslot)
    → overlaps rs r ≡ false
    → Covered rs j
    → 0 < j.key_size
    → 0 < k.key_size
    → r.start ≤ k.area_offset
    → k.area_offset + k.key_size * 4000 ≤ r.stop
    → Apart k j
unfolding overlaps
Apart-of_overlaps [] r j k e c m n p q = absurd c
Apart-of_overlaps (x ∷ rs) r j k e (inl here) m n p q = ground arith
Apart-of_overlaps (x ∷ rs) r j k e (inr there) m n p q =
    Apart-of_overlaps rs r j k (ground arith) there m n p q

All-map :
    {P Q : Keyslot → Type 0} (m : List (ℕ × Keyslot))
    → ((k : Keyslot) → P k → Q k)
    → All P m
    → All Q m
All-map [] f a = tt
All-map ((i, k) ∷ m) f a = (f k a.0, All-map m f a.1)

All-insert_id :
    (P : Keyslot → Type 0) (i : ℕ) (k : Keyslot) (m : List (ℕ × Keyslot))
    → P k
    → All P m
    → All P (insert_id i k m)
unfolding insert_id
All-insert_id P i k [] p a = (p, tt)
All-insert_id P i k ((j, w) ∷ m) p a = by_tests (ltb i j) (i == j) (All-insert_id P i k m p a.1)
  where
    by_tests :
        (s t : Bool)
        → All P (insert_id i k m)
        → All P
            (if s then (i, k) ∷ (j, w) ∷ m else if t then (i, k) ∷ m else (j, w) ∷ insert_id i k m)
    by_tests true t rest = (p, a)
    by_tests false true rest = (p, a.1)
    by_tests false false rest = (a.0, rest)

Apart-swap : (j k : Keyslot) → Apart j k → Apart k j
Apart-swap j k a = ground arith

AllApart-insert_id :
    (i : ℕ) (k : Keyslot) (m : List (ℕ × Keyslot))
    → All (Apart k) m
    → AllApart m
    → AllApart (insert_id i k m)
unfolding insert_id
AllApart-insert_id i k [] a b = (tt, tt)
AllApart-insert_id i k ((j, w) ∷ m) a b =
    by_tests (ltb i j) (i == j) (AllApart-insert_id i k m a.1 b.1)
      (All-insert_id (Apart w) i k m (Apart-swap k w a.0) b.0)
  where
    by_tests :
        (s t : Bool)
        → AllApart (insert_id i k m)
        → All (Apart w) (insert_id i k m)
        → AllApart
            (if s then (i, k) ∷ (j, w) ∷ m else if t then (i, k) ∷ m else (j, w) ∷ insert_id i k m)
    by_tests true t rest head = (a, b)
    by_tests false true rest head = (a.1, b.1)
    by_tests false false rest head = (head, rest)

area_range_lem :
    (area : Object) (key_size area_start area_end : ℕ) (ranges : List Range) (r : Range)
    → area_range area key_size area_start area_end ranges ≡ ok r
    → (area_start ≤ r.start)
      × (r.stop ≤ area_end)
      × (r.start % 4096 ≡ 0)
      × (r.start + key_size * 4000 ≤ r.stop)
      × (overlaps ranges r ≡ false)
unfolding area_range
area_range_lem area key_size area_start area_end ranges r e = ground arith

area_sizes_lem :
    (key_size : ℕ) (area : Object) (sizes : ℕ × ℕ)
    → area_sizes key_size area ≡ ok sizes
    → 0 < sizes.0
unfolding area_sizes
area_sizes_lem key_size area sizes e = ground arith

-- A keyslot and its range, after those before it.
record Fits (area_start area_end : ℕ) (ranges : List Range) (p : Keyslot × Range) : Type 0 where
  within : IsWithin area_start area_end p.0
  from : p.1.start ≤ p.0.area_offset
  to : p.0.area_offset + p.0.key_size * 4000 ≤ p.1.stop
  free : overlaps ranges p.1 ≡ false

module _ (decode64 : String → Option (List ℕ)) (area_start area_end : ℕ) where
  keyslot-Fits :
      (v : Value) (ranges : List Range)
      → Yields (Fits area_start area_end ranges) (keyslot decode64 area_start area_end v ranges)
  unfolding keyslot
  keyslot-Fits v ranges = Yields-bind (as_object v) _ λ o _. Yields-bind (check_kind o) _ λ _ _.
      Yields-bind (check_priority (get? o "priority")) _ λ _ _.
        Yields-bind (num o "key_size") _ λ key_size _.
          Yields-bind (get o "area" >>= as_object) _ λ area _.
            Yields-bind (area_sizes key_size area) _ λ sizes p.
              Yields-bind (area_range area sizes.0 area_start area_end ranges) _ λ range q.
                Yields-bind (get o "af" >>= as_object) _ λ af _. Yields-bind (check_af af) _ λ _ _.
                  Yields-bind (get o "kdf" >>= as_object >>= parse_kdf decode64) _ λ kdf _.
                    Yields-bind (text af "hash" >>= parse_hash) _ λ hash _. record {
                      at = λ r e.
                          let a = area_range_lem area sizes.0 area_start area_end ranges range q in
                          let n = area_sizes_lem key_size area sizes p in ground arith;
                    }

  -- What the loop keeps of the keyslots that it has parsed, and of their ranges.
  record IsLaidOut (parsed : List (ℕ × Keyslot)) (ranges : List Range) : Type 0 where
    within : All (IsWithin area_start area_end) parsed
    apart : AllApart parsed
    covered : All (Covered ranges) parsed

  step-IsLaidOut :
      (i : ℕ) (parsed : List (ℕ × Keyslot)) (ranges : List Range) (k : Keyslot) (r : Range)
      → IsLaidOut parsed ranges
      → Fits area_start area_end ranges (k, r)
      → IsLaidOut (insert_id i k parsed) (ranges ++ r ∷ [])
  step-IsLaidOut i parsed ranges k r h f = record {
    within = All-insert_id (IsWithin area_start area_end) i k parsed f.within h.within;
    apart = AllApart-insert_id i k parsed (apart parsed h.within h.covered) h.apart;
    covered =
        All-insert_id (Covered (ranges ++ r ∷ [])) i k parsed (Covered-last ranges r k f.from f.to)
          (All-map parsed (λ j. Covered-append ranges r j) h.covered);
  }
    where
      apart :
          (m : List (ℕ × Keyslot))
          → All (IsWithin area_start area_end) m
          → All (Covered ranges) m
          → All (Apart k) m
      apart [] w c = tt
      apart ((i, j) ∷ m) w c = (
        Apart-of_overlaps ranges r j k f.free c.0 w.0.some_key f.within.some_key f.from f.to,
        apart m w.1 c.1,
      )

  keyslot_loop-IsLaidOut :
      (keys : Object) (parsed out : List (ℕ × Keyslot)) (ranges : List Range)
      → IsLaidOut parsed ranges
      → keyslot_loop decode64 area_start area_end keys parsed ranges ≡ ok out
      → All (IsWithin area_start area_end) out × AllApart out
  unfolding keyslot_loop
  keyslot_loop-IsLaidOut [] parsed out ranges h e =
      let same : parsed ≡ out = cc in rw (← same) (h.within, h.apart)
  keyslot_loop-IsLaidOut ((name, v) ∷ keys) parsed out ranges h e =
      let i = >>=-ok (id name 31) _ e in
      let s = >>=-ok (keyslot decode64 area_start area_end v ranges) _ i.2 in
      keyslot_loop-IsLaidOut keys (insert_id i.0 s.0.0 parsed) out (ranges ++ s.0.1 ∷ [])
        (step-IsLaidOut i.0 parsed ranges s.0.0 s.0.1 h ((keyslot-Fits v ranges).at s.0 s.1)) s.2

  -- The key material of every accepted keyslot lies in the keyslots area, from a block boundary
  -- on, and no two keyslots share a byte of it.
  pub keyslots-AllApart :
      (keys : Object) (parsed : List (ℕ × Keyslot))
      → keyslots decode64 area_start area_end keys ≡ ok parsed
      → All (IsWithin area_start area_end) parsed × AllApart parsed
  unfolding keyslots
  keyslots-AllApart keys parsed e =
      keyslot_loop-IsLaidOut keys [] parsed [] (record { within = tt; apart = tt; covered = tt })
        (reject_if-ok _ resource_limit _ e).1
