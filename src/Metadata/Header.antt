-- ===== src/Metadata/Header.antt =====
-- `header` and `Metadata::read` of src/metadata.rs: the two binary headers and their agreement.
-- UTF-8 and UUID checks, JSON grammar and base64 are those of the libraries.
use Prim.Native.Nat.{bit_and}
use winluks.Base.{
  ℕ, ◌+◌, ◌-◌, ◌*◌, Bool, true, false, List, [], ◌∷◌, ◌++◌, String, str_eq, not, ltb, ◌==◌, ◌!=◌,
}
use winluks.Base.{◌||◌, ◌&&◌, length, take, drop, replicate, Option, none, some, if◌then◌else◌}
use winluks.Error.{Result, Outcome, ok, err, panic, unfinished, ◌>>=◌, ◌>>◌, reject_if, ok_or}
use winluks.Error.{metadata_invalid, metadata_recovery_required, unsupported_profile}
use winluks.Image.Os.{Backend}
use winluks.Image.{Image, read_exact_at}
use winluks.Crypto.Primitives.{Libraries, Hash}
use winluks.Crypto.{parse_hash, hash_size, digest}
use winluks.StrictJson.{Value, Raw, parse, same_value}
use winluks.Probe.Fields.{same_bytes, has_nonzero}
use winluks.Metadata.{Metadata, from_json}

pub record Codecs : Type 0 where
  -- `std::str::from_utf8`
  pub utf8 : List ℕ → Option String
  -- `uuid::Uuid::parse_str` succeeds
  pub is_uuid : String → Bool
  -- the grammar of serde_json
  pub read_json : List ℕ → Option Raw
  pub decode64 : String → Option (List ℕ)

pub record Header : Type 0 where
  pub size : ℕ
  pub seq : ℕ
  pub uuid : String
  pub label : String
  pub subsystem : String
  pub json : Value

-- `b[from..to]`
abbrev part : List ℕ → ℕ → ℕ → List ℕ
part b from to = take (to - from) (drop from b)

-- `be64`
abbrev be : ℕ → List ℕ → ℕ
be n [] = n
be n (x ∷ xs) = be (n * 256 + x) xs

-- The bytes up to the first zero, and those from it on.
abbrev split_zero : List ℕ → Option (List ℕ × List ℕ)
split_zero [] = none
split_zero (x ∷ xs) = elim (x == 0) [
  | true ↦ some ([], x ∷ xs)
  | false ↦ elim (split_zero xs) [ none ↦ none | some (a, b) ↦ some (x ∷ a, b) ]
]

-- What stands before a zero that only zeros follow.
unfoldable pub before_zeros : List ℕ → Result (List ℕ)
before_zeros b = do
  (text, rest) ← ok_or (split_zero b) metadata_invalid
  reject_if (has_nonzero rest 0 (length rest)) metadata_invalid
  ok text

unfoldable pub cstr : Codecs → List ℕ → Result String
cstr codecs b = do text ← before_zeros b; ok_or (codecs.utf8 text) metadata_invalid

abbrev magic : ℕ → List ℕ
magic offset =
    if offset == 0
    then b'L' ∷ b'U' ∷ b'K' ∷ b'S' ∷ 0xba ∷ 0xbe ∷ []
    else b'S' ∷ b'K' ∷ b'U' ∷ b'L' ∷ 0xba ∷ 0xbe ∷ []

abbrev is_power_of_two : ℕ → Bool
is_power_of_two n = n != 0 && bit_and n (n - 1) == 0

-- The checks of the first 4096 bytes; the result is the header's size.
unfoldable pub check_fixed : List ℕ → ℕ → Result ℕ
check_fixed fixed offset = do
  reject_if
      (not (same_bytes (part fixed 0 6) (magic offset))
        || not (same_bytes (part fixed 6 8) (0 ∷ 2 ∷ [])))
      metadata_recovery_required
  let size = be 0 (part fixed 8 16)
  reject_if (ltb size (16 * 1024) || ltb (4 * 1024 * 1024) size || not (is_power_of_two size))
      metadata_invalid
  reject_if (offset != be 0 (part fixed 256 264) || (offset != 0 && offset != size))
      metadata_recovery_required
  reject_if (has_nonzero fixed 264 448 || has_nonzero fixed 512 (length fixed)) unsupported_profile
  ok size

module _ (codecs : Codecs) (P : Libraries) where
  -- The names that are read before the whole header: its checksum's hash, and the UUID.
  unfoldable pub check_names : List ℕ → Result (Hash × String)
  check_names fixed = do
    alg ← cstr codecs (part fixed 72 104) >>= parse_hash
    uuid ← cstr codecs (part fixed 168 208)
    reject_if (not (codecs.is_uuid uuid)) metadata_invalid
    ok (alg, uuid)

  -- The checksum over the header with its own field zeroed.
  unfoldable pub check_digest : Hash → List ℕ → Result (Unit {0})
  check_digest alg bytes = do
    let expected = part bytes 448 (448 + hash_size alg)
    reject_if (has_nonzero bytes (448 + hash_size alg) 512) metadata_recovery_required
    sum ← digest P alg (take 448 bytes ++ replicate 64 0 ++ drop 512 bytes)
    reject_if (not (same_bytes sum expected)) metadata_recovery_required

  unfoldable pub build_header : List ℕ → List ℕ → ℕ → Hash × String → Result Header
  build_header fixed bytes size names = do
    check_digest names.0 bytes
    json_text ← before_zeros (drop 4096 bytes)
    label ← cstr codecs (part fixed 24 72)
    subsystem ← cstr codecs (part fixed 208 256)
    json ← parse codecs.read_json json_text
    ok (record {
      size = size;
      seq = be 0 (part fixed 16 24);
      uuid = names.1;
      label = label;
      subsystem = subsystem;
      json = json;
    })

  module _ (B : Backend) where
    abbrev pub lift : {A : Type 0} → Result A → Image B → Outcome A × Image B
    lift (ok a) im = (ok a, im)
    lift (err e) im = (err e, im)

    -- `read_exact_at(…).map_err(|_| MetadataRecoveryRequired)?`, and what follows.
    abbrev pub with_bytes :
        {A : Type 0}
        → Outcome (List ℕ) × Image B
        → (List ℕ → Image B → Outcome A × Image B)
        → Outcome A × Image B
    with_bytes (ok bytes, im) next = next bytes im
    with_bytes (err e, im) next = (err metadata_recovery_required, im)
    with_bytes (panic, im) next = (panic, im)
    with_bytes (unfinished, im) next = (unfinished, im)

    abbrev pub read_whole : List ℕ → ℕ → ℕ → Hash × String → Image B → Outcome Header × Image B
    read_whole fixed offset size names im =
        with_bytes (read_exact_at B im offset size)
          (λ bytes jm. lift (build_header fixed bytes size names) jm)

    abbrev pub checked :
        {A C : Type 0}
        → Result A
        → Image B
        → (A → Image B → Outcome C × Image B)
        → Outcome C × Image B
    checked (ok a) im next = next a im
    checked (err e) im next = (err e, im)

    unfoldable pub header : Image B → ℕ → Outcome Header × Image B
    header im offset = with_bytes (read_exact_at B im offset 4096) (λ fixed jm.
        checked (check_fixed fixed offset) jm (λ size km.
          checked (check_names fixed) km (λ names lm. read_whole fixed offset size names lm)))

    abbrev pub disagree : Header → Header → Bool
    disagree a b =
        a.size != b.size
        || a.seq != b.seq
        || not (str_eq a.uuid b.uuid)
        || not (str_eq a.label b.label)
        || not (str_eq a.subsystem b.subsystem)
        || not (same_value a.json b.json)

    unfoldable pub accept : Header → Header → ℕ → Result Metadata
    accept a b image_len = do
      reject_if (disagree a b) metadata_recovery_required
      from_json codecs.decode64 a.json a.size image_len

    -- What follows a header that was read.
    abbrev pub with_header :
        {A : Type 0}
        → Outcome Header × Image B
        → (Header → Image B → Outcome A × Image B)
        → Outcome A × Image B
    with_header (ok h, im) next = next h im
    with_header (err e, im) next = (err e, im)
    with_header (panic, im) next = (panic, im)
    with_header (unfinished, im) next = (unfinished, im)

    -- `Metadata::read`
    unfoldable pub read : Image B → Outcome Metadata × Image B
    read im =
        with_header (header im 0)
          (λ a jm. with_header (header jm a.size) (λ b km. lift (accept a b im.len) km))
