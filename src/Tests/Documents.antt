-- ===== src/Tests/Documents.antt =====
-- A LUKS2 document of the accepted profile, with one keyslot, and the strict reader at a small one.
use Prim.Native.String.{String}
use winluks.Base.{ℕ, ◌*◌, ◌≤◌, ◌≡◌, refl, List, [], ◌∷◌, replicate, Option, some}
use winluks.Error.{ok}
use winluks.Crypto.{parse_hash}
use winluks.Crypto.Primitives.{pbkdf2}
use winluks.Crypto.Primitives.{sha256}
use winluks.StrictJson.{Value, number, string, array, object, nil, cons, Fields, end, field}
use winluks.StrictJson.{
  Raw, raw_number, raw_seq, raw_map, raw_nil, raw_cons, raw_end, raw_field, visit, insert,
  contains_key, parse,
}
use winluks.StrictJson.Strict.{depth, parse-depth}
use winluks.Metadata.{Metadata, config, from_json}
use winluks.Metadata.Fields.{
  as_object, as_array, as_str, as_u64, get?, get, decimal, only, id, ids_loop, bounded,
  contains_text, insert_id, lookup_id,
}
use winluks.Metadata.Kdfs.{parse_kdf, parse_pbkdf2}
use winluks.Metadata.Segments.{segment, place}
use winluks.Metadata.Keyslots.{overlaps, area_sizes, area_range, keyslot, keyslot_loop, keyslots}
use winluks.Metadata.Digests.{tokens, slot_loop, digest_body, digest_loop, digests}
use winluks.Metadata.Placement.{IsInside, from_json-IsInside}

abbrev pub kdf_fields : Fields
kdf_fields = field "hash" (string "sha256") (
    field "iterations" (number 1000)
      (field "salt" (string "c2FsdA==") (field "type" (string "pbkdf2") end)))

abbrev area_fields : Fields
area_fields = field "encryption" (string "aes-xts-plain64") (
    field "key_size" (number 64) (
      field "offset" (string "32768")
        (field "size" (string "258048") (field "type" (string "raw") end))))

abbrev pub af_fields : Fields
af_fields =
    field "hash" (string "sha256")
      (field "stripes" (number 4000) (field "type" (string "luks1") end))

abbrev keyslot_fields : Fields
keyslot_fields = field "af" (object af_fields) (
    field "area" (object area_fields) (
      field "kdf" (object kdf_fields)
        (field "key_size" (number 64) (field "type" (string "luks2") end))))

abbrev segment_fields : Fields
segment_fields = field "encryption" (string "aes-xts-plain64") (
    field "iv_tweak" (string "0") (
      field "offset" (string "16777216") (
        field "sector_size" (number 512)
          (field "size" (string "dynamic") (field "type" (string "crypt") end)))))

abbrev digest_fields : Fields
digest_fields = field "digest" (string "c2FsdA==") (
    field "hash" (string "sha256") (
      field "iterations" (number 1000) (
        field "keyslots" (array (cons (string "0") nil)) (
          field "salt" (string "c2FsdA==") (
            field "segments" (array (cons (string "0") nil))
              (field "type" (string "pbkdf2") end))))))

abbrev config_fields : Fields
config_fields = field "json_size" (string "12288") (field "keyslots_size" (string "16744448") end)

abbrev pub document : Value
document = object (
    field "config" (object config_fields) (
      field "digests" (object (field "0" (object digest_fields) end)) (
        field "keyslots" (object (field "0" (object keyslot_fields) end)) (
          field "segments" (object (field "0" (object segment_fields) end))
            (field "tokens" (object end) end)))))

-- Every text of this document stands for 32 bytes.
abbrev pub decode : String → Option (List ℕ)
decode s = some (replicate 32 7)

abbrev accepted : Metadata
accepted = record {
  offset = 16777216;
  length = 16777216;
  slots =
      (
        0,
        record {
          key_size = 64;
          area_key_size = 64;
          area_offset = 32768;
          af_hash = sha256;
          kdf = pbkdf2 sha256 1000 (replicate 32 7);
          digest_kdf = pbkdf2 sha256 1000 (replicate 32 7);
          digest = replicate 32 7;
        },
      )
      ∷ [];
}

document_accepted : from_json decode document 16384 33554432 ≡ ok accepted
unfolding from_json as_object as_array as_str as_u64 get? get decimal only id ids_loop bounded
    contains_text insert_id lookup_id config segment place keyslots keyslot_loop keyslot area_sizes
    area_range overlaps parse_kdf parse_pbkdf2 tokens digests digest_loop digest_body slot_loop
    parse_hash
document_accepted = refl

from_json-IsInside_example : IsInside (16384 * 2) 33554432 16777216 16777216
from_json-IsInside_example =
    from_json-IsInside decode document 16384 33554432 accepted document_accepted

abbrev pub nested : Raw
nested = raw_map (raw_field "a" (raw_seq (raw_cons (raw_number 1) raw_nil)) raw_end)

abbrev pub read : List ℕ → Option Raw
read bytes = some nested

pub nested_accepted :
    parse read (b'[' ∷ []) ≡ ok (object (field "a" (array (cons (number 1) nil)) end))
unfolding parse visit insert contains_key
nested_accepted = refl

parse-depth_example : depth nested ≤ 33
parse-depth_example =
    parse-depth read (b'[' ∷ []) nested (object (field "a" (array (cons (number 1) nil)) end)) refl
      nested_accepted
