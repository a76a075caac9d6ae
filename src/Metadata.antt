-- ===== src/Metadata.antt =====
-- src/metadata.rs: the LUKS2 header and the profile of its JSON area.
pub mod Fields
pub mod Kdfs
pub mod Segments
pub mod Keyslots
pub mod Digests
pub mod Header
pub mod Placement
pub mod Areas
pub mod Decimals
pub mod Names
pub mod Origin
use winluks.Base.{
  ℕ, ◌+◌, ◌-◌, ◌*◌, Bool, true, false, List, String, not, ltb, ◌!=◌, ◌||◌, length, Option, none,
  some,
}
use winluks.Base.{if◌then◌else◌, [], ◌∷◌}
use winluks.Base.Words.{checked_add, checked_mul, is_multiple_of}
use winluks.Error.{Error, Result, ok, err, ◌>>=◌, ◌>>◌, reject_if, ok_or}
use winluks.Error.{metadata_invalid, unsupported_profile, resource_limit, reencryption_unsupported}
use winluks.StrictJson.{Value}
use Fields.{
  Object, as_object, as_array, as_str, entries, get, get?, dec, only, contains_text, lookup_id,
  ids_of,
}
use Segments.{Segment, segment}
use Keyslots.{keyslots}
use Digests.{Slot, tokens, digests}

pub record Metadata : Type 0 where
  pub offset : ℕ
  pub length : ℕ
  pub slots : List (ℕ × Slot)

-- The loop over `requirements.mandatory`.
abbrev check_mandatory : List Value → Result (Unit {0})
check_mandatory [] = ok tt
check_mandatory (x ∷ xs) = do
  s ← as_str x
  reject_if (contains_text "reencrypt" s) reencryption_unsupported
  check_mandatory xs

abbrev check_requirements : Option Value → Result (Unit {0})
check_requirements none = ok tt
check_requirements (some r) = do
  o ← as_object r
  only o ("mandatory" ∷ [])
  elim (get? o "mandatory") [
    | none ↦ ok tt
    | some m ↦ do
      xs ← as_array m
      check_mandatory xs
      reject_if (length xs != 0) unsupported_profile
  ]

-- `if let Some(flags) = … && !flags.as_array()….is_empty()`
abbrev check_flags : Option Value → Result (Unit {0})
check_flags none = ok tt
check_flags (some f) = do xs ← as_array f; reject_if (length xs != 0) unsupported_profile

-- The object `config`; its result is the size of the keyslots area.
unfoldable pub config : Object → ℕ → Result ℕ
config o hdr_size = do
  only o ("json_size" ∷ "keyslots_size" ∷ "flags" ∷ "requirements" ∷ [])
  json_size ← dec o "json_size"
  reject_if (json_size != hdr_size - 4096) metadata_invalid
  check_flags (get? o "flags")
  check_requirements (get? o "requirements")
  keyslots_size ← dec o "keyslots_size"
  reject_if (ltb (128 * 1024 * 1024) keyslots_size || not (is_multiple_of keyslots_size 4096))
      resource_limit
  ok keyslots_size

-- `Metadata::from_json`; `decode64` is the base64 library.
unfoldable pub from_json : (String → Option (List ℕ)) → Value → ℕ → ℕ → Result Metadata
from_json decode64 v hdr_size image_len = do
  root ← as_object v
  only root ("keyslots" ∷ "tokens" ∷ "segments" ∷ "digests" ∷ "config" ∷ [])
  c ← get root "config" >>= as_object
  keyslots_size ← config c hdr_size
  area_start ← ok_or (checked_mul hdr_size 2) metadata_invalid
  area_end ← ok_or (checked_add area_start keyslots_size) metadata_invalid
  segs ← get root "segments" >>= as_object
  seg ← segment segs area_end image_len
  keys ← get root "keyslots" >>= as_object
  parsed ← keyslots decode64 area_start area_end keys
  ts ← get root "tokens" >>= as_object
  tokens ts
  ds ← get root "digests" >>= as_object
  slots ← digests decode64 ds seg.id parsed
  ok (record { offset = seg.offset; length = seg.length; slots = slots })

-- `Metadata::keyslots`
abbrev pub slot_ids : Metadata → List ℕ
slot_ids m = ids_of m.slots

-- `Metadata::slot`
unfoldable pub slot : Metadata → ℕ → Result Slot
slot m id = ok_or (lookup_id id m.slots) unsupported_profile
