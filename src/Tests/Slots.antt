-- ===== src/Tests/Slots.antt =====
-- Two keyslots side by side, and the keys of a small document.
use Prim.Native.String.{String}
use winluks.Base.{List, ℕ, length, ap, arith, ◌≢◌, ◌≡◌, refl, [], ◌∷◌, replicate}
use winluks.Error.{ok}
use winluks.Crypto.{parse_hash}
use winluks.Crypto.Primitives.{pbkdf2}
use winluks.Crypto.Primitives.{sha256}
use winluks.StrictJson.{codes, Value, number, string, array, object, nil, cons, end, field}
use winluks.StrictJson.Distinct.{IsDistinct, parse-IsDistinct}
use winluks.Metadata.Fields.{
  Object, as_object, as_array, as_str, as_u64, get?, get, decimal, id, ids_loop, bounded, only,
  contains_text, insert_id, lookup_id,
}
use winluks.Metadata.Kdfs.{parse_kdf, parse_pbkdf2}
use winluks.Metadata.Keyslots.{
  Keyslot, overlaps, area_sizes, area_range, keyslot, keyslot_loop, keyslots,
}
use winluks.Metadata.Names.{length-keyslots}
use winluks.Metadata.Areas.{All, AllApart, IsWithin, keyslots-AllApart}
use winluks.Tests.Documents.{decode, kdf_fields, af_fields, nested, read, nested_accepted}

-- A keyslot with its material at this place.
abbrev keyslot_at : String → Value
keyslot_at offset = object (
    field "af" (object af_fields) (
      field "area"
        (object (
          field "encryption" (string "aes-xts-plain64") (
            field "key_size" (number 64) (
              field "offset" (string offset)
                (field "size" (string "258048") (field "type" (string "raw") end))))))
        (field "kdf" (object kdf_fields)
          (field "key_size" (number 64) (field "type" (string "luks2") end)))))

abbrev two_keyslots : Object
two_keyslots = ("0", keyslot_at "290816") ∷ ("1", keyslot_at "32768") ∷ []

abbrev parsed_at : ℕ → Keyslot
parsed_at offset = record {
  key_size = 64;
  area_key_size = 64;
  area_offset = offset;
  af_hash = sha256;
  kdf = pbkdf2 sha256 1000 (replicate 32 7);
}

abbrev two_parsed : List (ℕ × Keyslot)
two_parsed = (0, parsed_at 290816) ∷ (1, parsed_at 32768) ∷ []

two_accepted : keyslots decode 32768 16777216 two_keyslots ≡ ok two_parsed
unfolding keyslots keyslot_loop keyslot area_sizes area_range overlaps as_object as_array as_str
    as_u64 get? get decimal only id ids_loop bounded contains_text insert_id lookup_id parse_kdf
    parse_pbkdf2 parse_hash
two_accepted = refl

keyslots-AllApart_example : All (IsWithin 32768 16777216) two_parsed × AllApart two_parsed
keyslots-AllApart_example =
    keyslots-AllApart decode 32768 16777216 two_keyslots two_parsed two_accepted

parse-IsDistinct_example : IsDistinct nested
parse-IsDistinct_example =
    parse-IsDistinct read (b'[' ∷ []) nested (object (field "a" (array (cons (number 1) nil)) end))
      refl nested_accepted

abbrev first_name : String
first_name = "0"

abbrev second_name : String
second_name = "1"

names_differ : first_name ≢ second_name
names_differ e =
    let same : codes first_name ≡ codes second_name = ap codes e in absurd (ground arith)

length-keyslots_example : length two_parsed ≡ length two_keyslots
length-keyslots_example =
    length-keyslots decode 32768 16777216 two_keyslots two_parsed ((names_differ, tt), (tt, tt))
      two_accepted
