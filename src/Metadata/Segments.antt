-- ===== src/Metadata/Segments.antt =====
-- The single data segment, in `from_json` of src/metadata.rs.
use winluks.Base.{ℕ, ◌-◌, List, [], ◌∷◌, str_eq, not, ltb, ◌==◌, ◌!=◌, ◌||◌, length}
use winluks.Base.{Option, none, some, if◌then◌else◌}
use winluks.Base.Words.{is_multiple_of}
use winluks.Error.{Result, ok, err, ◌>>=◌, ◌>>◌, reject_if}
use winluks.Error.{metadata_invalid, unsupported_profile, reencryption_unsupported}
use winluks.StrictJson.{Value}
use winluks.Metadata.Fields.{
  Object, as_object, as_array, as_str, get?, text, num, dec, decimal, only, id, contains_text,
}

pub record Segment : Type 0 where
  pub id : ℕ
  pub offset : ℕ
  pub length : ℕ

-- The loop over the flags of a segment.
abbrev check_reencrypt : List Value → Result (Unit {0})
check_reencrypt [] = ok tt
check_reencrypt (x ∷ xs) = do
  s ← as_str x
  reject_if (contains_text "reencrypt" s) reencryption_unsupported
  check_reencrypt xs

abbrev check_segment_flags : Option Value → Result (Unit {0})
check_segment_flags none = ok tt
check_segment_flags (some f) = as_array f >>= check_reencrypt

-- The loop over `segs.values()`.
abbrev pub scan_flags : Object → Result (Unit {0})
scan_flags [] = ok tt
scan_flags ((_, v) ∷ segs) = do
  o ← as_object v
  check_segment_flags (get? o "flags")
  scan_flags segs

abbrev pub no_flags : Option Value → Result (Unit {0})
no_flags none = ok tt
no_flags (some f) = as_array f >>= λ xs. reject_if (length xs != 0) unsupported_profile

-- `tests joined by ||`, of which each later one is read only if those before it fail.
abbrev pub check_cipher : Object → Result (Unit {0})
check_cipher seg = do
  kind ← text seg "type"
  reject_if (not (str_eq kind "crypt")) unsupported_profile
  encryption ← text seg "encryption"
  reject_if (not (str_eq encryption "aes-xts-plain64")) unsupported_profile
  sector_size ← num seg "sector_size"
  reject_if (sector_size != 512) unsupported_profile
  iv_tweak ← dec seg "iv_tweak"
  reject_if (iv_tweak != 0) unsupported_profile

-- Where the segment lies.
unfoldable pub place : Object → ℕ → ℕ → ℕ → Result Segment
place seg segid area_end image_len = do
  offset ← dec seg "offset"
  reject_if (ltb offset area_end || ltb image_len offset || not (is_multiple_of offset 512))
      metadata_invalid
  size ← text seg "size"
  length ← (if str_eq size "dynamic" then ok (image_len - offset) else decimal size)
  reject_if (length == 0 || ltb (image_len - offset) length || not (is_multiple_of length 512))
      metadata_invalid
  ok (record { id = segid; offset = offset; length = length })

unfoldable pub segment : Object → ℕ → ℕ → Result Segment
segment [] area_end image_len = err unsupported_profile
segment ((name, v) ∷ []) area_end image_len = do
  scan_flags ((name, v) ∷ [])
  segid ← id name 31
  seg ← as_object v
  only seg ("type" ∷ "offset" ∷ "size" ∷ "iv_tweak" ∷ "encryption" ∷ "sector_size" ∷ "flags" ∷ [])
  check_cipher seg
  no_flags (get? seg "flags")
  place seg segid area_end image_len
segment segs area_end image_len = scan_flags segs >> err unsupported_profile
