-- ===== src/Tests/Unlocking.antt =====
-- An image with both headers, one keyslot and an empty payload, unlocked.
use winluks.Base.{
  ℕ, ◌-◌, ◌≡◌, refl, true, false, List, [], ◌∷◌, replicate, some, ltb, ◌==◌, if◌then◌else◌, arith,
}
use winluks.Base.Contents.{Contents, slice}
use winluks.Error.{ok}
use winluks.Image.{Image, AccessMode, read_exact_at, read_loop}
use winluks.Image.Memory.{memory, memory-IsFile}
use winluks.Crypto.Primitives.{Libraries}
use winluks.Crypto.{
  parse_hash, crypt_sectors, crypt_loop, sector_iv, derive, digest, af_merge, merge_loop, diffuse,
  xor_bytes, new_volume_key,
}
use winluks.StrictJson.{
  Value, null, boolean, number, negative, string, array, object, Items, nil, cons, Fields, end,
  field, parse, visit, insert, contains_key, same_value,
}
use winluks.StrictJson.{
  Raw, raw_null, raw_boolean, raw_number, raw_negative, raw_text, raw_seq, raw_map, RawItems,
  raw_nil, raw_cons, RawFields, raw_end, raw_field,
}
use winluks.Probe.Fields.{same_bytes, has_nonzero}
use winluks.Metadata.{Metadata, config, from_json, slot}
use winluks.Metadata.Fields.{
  as_object, as_array, as_str, as_u64, get?, get, decimal, only, id, ids_loop, bounded,
  contains_text, insert_id, lookup_id,
}
use winluks.Metadata.Kdfs.{parse_kdf, parse_pbkdf2}
use winluks.Metadata.Segments.{segment, place}
use winluks.Metadata.Keyslots.{overlaps, area_sizes, area_range, keyslot, keyslot_loop, keyslots}
use winluks.Metadata.Digests.{tokens, slot_loop, digest_body, digest_loop, digests}
use winluks.Metadata.Header
use winluks.Metadata.Header.{
  Codecs, accept, check_fixed, check_names, check_digest, build_header, before_zeros, cstr,
}
use winluks.Volume.{UnlockedVolume}
use winluks.Volume.Payload.{IsPlaced}
use winluks.Volume.Unlock.{area_key, volume_key, unlock}
use winluks.Volume.Unlocked.{unlock-IsPlaced}
use winluks.Volume.Origin.{IsFrom, unlock-IsFrom}
use winluks.Metadata.Origin.{metadata_of}
use winluks.Tests.Documents.{document, decode}

abbrev mutual
  raw_of : Value → Raw
  raw_of null = raw_null
  raw_of (boolean b) = raw_boolean b
  raw_of (number n) = raw_number n
  raw_of (negative n) = raw_negative n
  raw_of (string s) = raw_text s
  raw_of (array xs) = raw_seq (raw_items xs)
  raw_of (object m) = raw_map (raw_fields m)

  raw_items : Items → RawItems
  raw_items nil = raw_nil
  raw_items (cons x xs) = raw_cons (raw_of x) (raw_items xs)

  raw_fields : Fields → RawFields
  raw_fields end = raw_end
  raw_fields (field k v m) = raw_field k (raw_of v) (raw_fields m)

-- Every text is "sha256", and the JSON area holds the document.
abbrev pub codecs : Codecs
codecs = record {
  utf8 = λ bytes. some "sha256";
  is_uuid = λ s. true;
  read_json = λ bytes. some (raw_of document);
  decode64 = decode;
}

abbrev pub header_libraries : Libraries
header_libraries = record {
  xts = λ dir key iv sector. some sector;
  hash = λ h bytes. some (replicate 32 0);
  pbkdf2_hmac = λ password salt iterations h size. some (replicate size 7);
  argon2_block_count = λ memory time cpus size. some 8;
  can_reserve = λ blocks. true;
  argon2_hash = λ id memory time cpus password salt size. some password;
  elapsed = λ kdf password size. 0;
}

abbrev at : List (ℕ × ℕ) → ℕ → ℕ
at [] p = 0
at ((q, b) ∷ bytes) p = if p == q then b else at bytes p

abbrev first_header : List (ℕ × ℕ)
first_header =
    (0, b'L')
    ∷ (1, b'U')
    ∷ (2, b'K')
    ∷ (3, b'S')
    ∷ (4, 0xba)
    ∷ (5, 0xbe)
    ∷ (7, 2)
    ∷ (14, 0x40)
    ∷ (23, 1)
    ∷ []

abbrev second_header : List (ℕ × ℕ)
second_header =
    (0, b'S')
    ∷ (1, b'K')
    ∷ (2, b'U')
    ∷ (3, b'L')
    ∷ (4, 0xba)
    ∷ (5, 0xbe)
    ∷ (7, 2)
    ∷ (14, 0x40)
    ∷ (23, 1)
    ∷ (262, 0x40)
    ∷ []

abbrev pub luks_bytes : Contents
luks_bytes i =
    if ltb i 24
    then at first_header i
    else if ltb i 16384
    then 0
    else if ltb i 16700
    then at second_header (i - 16384)
    else 0

abbrev luks_image : Image memory
luks_image = record {
  file = record { bytes = luks_bytes; size = 33554432 };
  len = 33554432;
  mode = AccessMode.read_write;
}

abbrev unlocked : UnlockedVolume memory
unlocked = record {
  image = luks_image;
  offset = 16777216;
  len = 16777216;
  key = record { bytes = replicate 64 0; locked = true };
  poisoned = false;
  faulted = false;
}

luks_unlocked :
    unlock codecs header_libraries memory true true luks_image 0 (b'p' ∷ []) ≡ ok unlocked
unfolding unlock area_key volume_key slot Header.read Header.header accept check_fixed check_names
    check_digest build_header before_zeros cstr digest parse_hash derive af_merge merge_loop diffuse
    xor_bytes new_volume_key crypt_sectors crypt_loop sector_iv read_exact_at read_loop slice
    same_bytes has_nonzero parse visit insert contains_key same_value from_json as_object as_array
    as_str as_u64 get? get decimal only id ids_loop bounded contains_text insert_id lookup_id config
    segment place keyslots keyslot_loop keyslot area_sizes area_range overlaps parse_kdf
    parse_pbkdf2 tokens digests digest_loop digest_body slot_loop
luks_unlocked = refl

unlock-IsPlaced_example : IsPlaced unlocked
unlock-IsPlaced_example =
    unlock-IsPlaced codecs header_libraries memory true true unlocked luks_image 0 (b'p' ∷ [])
      (omega arith) luks_unlocked

unlock-IsFrom_example :
    (m : Metadata) × (metadata_of codecs header_libraries memory luks_bytes 33554432 ≡ ok m)
    × IsFrom codecs header_libraries memory-IsFile true true unlocked m luks_image
unfolding memory-IsFile
unlock-IsFrom_example =
    unlock-IsFrom codecs header_libraries memory-IsFile true true unlocked luks_image 0 (b'p' ∷ [])
      luks_unlocked
