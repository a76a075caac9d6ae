-- ===== src/Metadata/Keyslots.antt =====
-- The keyslots, in `from_json` of src/metadata.rs.
use winluks.Base.{
  ℕ, ◌*◌, Bool, false, List, [], ◌∷◌, ◌++◌, String, str_eq, not, ltb, ◌!=◌, ◌||◌, ◌&&◌,
}
use winluks.Base.{length, Option, none, some}
use winluks.Base.Words.{is_multiple_of, checked_add}
use winluks.Error.{Result, ok, ◌>>=◌, ◌>>◌, reject_if, ok_or}
use winluks.Error.{metadata_invalid, unsupported_profile, reencryption_unsupported, resource_limit}
use winluks.StrictJson.{Value}
use winluks.Crypto.Primitives.{Kdf}
use winluks.Crypto.{parse_hash, not_key_size}
use winluks.Crypto.Primitives.{Hash}
use winluks.Metadata.Fields.{
  Object, as_object, as_u64, get, get?, text, num, dec, only, id, insert_id,
}
use winluks.Metadata.Kdfs.{parse_kdf}

-- The tuple that `parsed` holds of a keyslot.
pub record Keyslot : Type 0 where
  pub key_size : ℕ
  pub area_key_size : ℕ
  pub area_offset : ℕ
  pub af_hash : Hash
  pub kdf : Kdf

pub record Range : Type 0 where
  pub start : ℕ
  pub stop : ℕ

-- `ranges.iter().any(|&(s, e)| start < e && s < end)`
unfoldable pub overlaps : List Range → Range → Bool
overlaps [] r = false
overlaps (q ∷ qs) r = (ltb r.start q.stop && ltb q.start r.stop) || overlaps qs r

abbrev pub check_kind : Object → Result (Unit {0})
check_kind o = do
  kind ← text o "type"
  reject_if (str_eq kind "reencrypt") reencryption_unsupported
  only o ("type" ∷ "key_size" ∷ "area" ∷ "kdf" ∷ "af" ∷ "priority" ∷ [])
  reject_if (not (str_eq kind "luks2")) unsupported_profile

abbrev pub check_priority : Option Value → Result (Unit {0})
check_priority none = ok tt
check_priority (some p) = as_u64 p >>= λ n. reject_if (ltb 2 n) metadata_invalid

-- Sizes and cipher of the area.
unfoldable pub area_sizes : ℕ → Object → Result (ℕ × ℕ)
area_sizes key_size area = do
  only area ("type" ∷ "offset" ∷ "size" ∷ "encryption" ∷ "key_size" ∷ [])
  area_key_size ← num area "key_size"
  reject_if (not_key_size key_size || not_key_size area_key_size) unsupported_profile
  kind ← text area "type"
  reject_if (not (str_eq kind "raw")) unsupported_profile
  encryption ← text area "encryption"
  reject_if (not (str_eq encryption "aes-xts-plain64")) unsupported_profile
  ok (key_size, area_key_size)

-- Where the area lies, apart from those of the keyslots before.
unfoldable pub area_range : Object → ℕ → ℕ → ℕ → List Range → Result Range
area_range area key_size area_start area_end ranges = do
  start ← dec area "offset"
  size ← dec area "size"
  stop ← ok_or (checked_add start size) metadata_invalid
  reject_if (ltb (64 * 1024 * 1024) size) resource_limit
  reject_if
      (ltb size (key_size * 4000)
        || ltb start area_start
        || ltb area_end stop
        || not (is_multiple_of start 4096)
        || not (is_multiple_of size 4096))
      metadata_invalid
  reject_if (overlaps ranges (record { start = start; stop = stop })) metadata_invalid
  ok (record { start = start; stop = stop })

abbrev pub check_af : Object → Result (Unit {0})
check_af af = do
  only af ("type" ∷ "stripes" ∷ "hash" ∷ [])
  kind ← text af "type"
  reject_if (not (str_eq kind "luks1")) unsupported_profile
  stripes ← num af "stripes"
  reject_if (stripes != 4000) unsupported_profile

module _ (decode64 : String → Option (List ℕ)) (area_start area_end : ℕ) where
  -- The body of the loop, up to its insertion.
  unfoldable pub keyslot : Value → List Range → Result (Keyslot × Range)
  keyslot v ranges = do
    o ← as_object v
    check_kind o
    check_priority (get? o "priority")
    key_size ← num o "key_size"
    area ← get o "area" >>= as_object
    sizes ← area_sizes key_size area
    range ← area_range area sizes.0 area_start area_end ranges
    af ← get o "af" >>= as_object
    check_af af
    kdf ← get o "kdf" >>= as_object >>= parse_kdf decode64
    hash ← text af "hash" >>= parse_hash
    ok (
      record {
        key_size = sizes.0;
        area_key_size = sizes.1;
        area_offset = range.start;
        af_hash = hash;
        kdf = kdf;
      },
      range,
    )

  unfoldable pub keyslot_loop :
      Object → List (ℕ × Keyslot) → List Range → Result (List (ℕ × Keyslot))
  keyslot_loop [] parsed ranges = ok parsed
  keyslot_loop ((k, v) ∷ keys) parsed ranges = do
    key_id ← id k 31
    slot ← keyslot v ranges
    keyslot_loop keys (insert_id key_id slot.0 parsed) (ranges ++ slot.1 ∷ [])

  unfoldable pub keyslots : Object → Result (List (ℕ × Keyslot))
  keyslots keys = do reject_if (ltb 32 (length keys)) resource_limit; keyslot_loop keys [] []
