-- ===== src/Metadata/Digests.antt =====
-- Tokens and digests, in `from_json` of src/metadata.rs.
use winluks.Base.{
  ℕ, Bool, true, false, List, [], ◌∷◌, String, str_eq, not, ltb, ◌==◌, ◌!=◌, ◌||◌, ◌&&◌,
}
use winluks.Base.{length, Option, none, some, if◌then◌else◌}
use winluks.Error.{Result, ok, ◌>>=◌, ◌>>◌, reject_if, ok_or}
use winluks.Error.{metadata_invalid, unsupported_profile, resource_limit}
use winluks.Crypto.Primitives.{Kdf, pbkdf2}
use winluks.Crypto.{parse_hash, hash_size}
use winluks.Crypto.Primitives.{Hash}
use winluks.Metadata.Fields.{
  Object, as_object, text, only, id, ids, b64, bounded, insert_id, lookup_id,
}
use winluks.Metadata.Keyslots.{Keyslot}

pub record Slot : Type 0 where
  pub key_size : ℕ
  pub area_key_size : ℕ
  pub area_offset : ℕ
  pub af_hash : Hash
  pub kdf : Kdf
  pub digest_kdf : Kdf
  pub digest : List ℕ

abbrev token_loop : Object → Result (Unit {0})
token_loop [] = ok tt
token_loop ((t, v) ∷ ts) = do _ ← id t 31; _ ← as_object v; token_loop ts

unfoldable pub tokens : Object → Result (Unit {0})
tokens ts = do reject_if (ltb 32 (length ts)) resource_limit; token_loop ts

-- `ds.iter().any(|s| *s != segid)`
abbrev any_other : List ℕ → ℕ → Bool
any_other [] segid = false
any_other (s ∷ ss) segid = s != segid || any_other ss segid

abbrev is_some : Option Slot → Bool
is_some none = false
is_some (some _) = true

-- What a digest adds to the slots that it names.
pub record Digest : Type 0 where
  pub kdf : Kdf
  pub digest : List ℕ
  pub unused : Bool

abbrev pub slot_of : Keyslot → Digest → Slot
slot_of k d = record {
  key_size = k.key_size;
  area_key_size = k.area_key_size;
  area_offset = k.area_offset;
  af_hash = k.af_hash;
  kdf = k.kdf;
  digest_kdf = d.kdf;
  digest = d.digest;
}

module _ (parsed : List (ℕ × Keyslot)) where
  -- The loop over the keyslots of a digest; one without segments adds no slot.
  unfoldable pub slot_loop : Digest → List ℕ → List (ℕ × Slot) → Result (List (ℕ × Slot))
  slot_loop d [] slots = ok slots
  slot_loop d (k ∷ ks) slots = do
    key ← ok_or (lookup_id k parsed) metadata_invalid
    reject_if (not d.unused && is_some (lookup_id k slots)) metadata_invalid
    slot_loop d ks (if d.unused then slots else insert_id k (slot_of key d) slots)

  module _ (decode64 : String → Option (List ℕ)) (segid : ℕ) where
    unfoldable pub digest_body : Object → List (ℕ × Slot) → Result (List (ℕ × Slot))
    digest_body o slots = do
      only o ("type" ∷ "keyslots" ∷ "segments" ∷ "hash" ∷ "iterations" ∷ "salt" ∷ "digest" ∷ [])
      kind ← text o "type"
      reject_if (not (str_eq kind "pbkdf2")) unsupported_profile
      digest ← b64 decode64 o "digest"
      salt ← b64 decode64 o "salt"
      hash ← text o "hash" >>= parse_hash
      reject_if (length salt != 32 || (length digest != 20 && length digest != hash_size hash))
          metadata_invalid
      iterations ← bounded o "iterations" 10_000_000
      ds ← ids o "segments" 31
      reject_if (any_other ds segid) metadata_invalid
      ks ← ids o "keyslots" 31
      slot_loop
          (record { kdf = pbkdf2 hash iterations salt; digest = digest; unused = length ds == 0 })
          ks slots

    unfoldable pub digest_loop : Object → List (ℕ × Slot) → Result (List (ℕ × Slot))
    digest_loop [] slots = ok slots
    digest_loop ((d, v) ∷ rest) slots = do
      _ ← id d 31
      o ← as_object v
      more ← digest_body o slots
      digest_loop rest more

unfoldable pub digests :
    (String → Option (List ℕ)) → Object → ℕ → List (ℕ × Keyslot) → Result (List (ℕ × Slot))
digests decode64 ds segid parsed = do
  reject_if (ltb 32 (length ds)) resource_limit
  digest_loop parsed decode64 segid ds []
