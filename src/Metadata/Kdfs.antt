-- ===== src/Metadata/Kdfs.antt =====
-- `parse_kdf` of src/metadata.rs
use Prim.Native.String.{String}
use winluks.Base.{str_eq, ℕ, ◌*◌, List, [], ◌∷◌, ltb, ◌!=◌, ◌||◌, length, Option, if◌then◌else◌}
use winluks.Error.{Result, ok, err, ◌>>=◌, ◌>>◌, reject_if, metadata_invalid, unsupported_profile}
use winluks.Crypto.Primitives.{Kdf, pbkdf2, argon2}
use winluks.Crypto.{parse_hash}
use winluks.Metadata.Fields.{Object, text, only, b64, bounded}

unfoldable pub parse_pbkdf2 : Object → List ℕ → Result Kdf
parse_pbkdf2 o salt = do
  only o ("type" ∷ "hash" ∷ "iterations" ∷ "salt" ∷ [])
  hash ← text o "hash" >>= parse_hash
  iterations ← bounded o "iterations" 10_000_000
  ok (pbkdf2 hash iterations salt)

unfoldable pub parse_argon2 : Object → List ℕ → String → Result Kdf
parse_argon2 o salt kind = do
  only o ("type" ∷ "time" ∷ "memory" ∷ "cpus" ∷ "salt" ∷ [])
  memory ← bounded o "memory" 1_048_576
  time ← bounded o "time" 10
  cpus ← bounded o "cpus" 8
  reject_if (ltb memory (8 * cpus)) metadata_invalid
  ok (argon2 (str_eq kind "argon2id") memory time cpus salt)

unfoldable pub parse_kdf : (String → Option (List ℕ)) → Object → Result Kdf
parse_kdf decode64 o = do
  salt ← b64 decode64 o "salt"
  reject_if (length salt != 32) metadata_invalid
  kind ← text o "type"
  (if str_eq kind "pbkdf2"
      then parse_pbkdf2 o salt
      else if str_eq kind "argon2i" || str_eq kind "argon2id"
      then parse_argon2 o salt kind
      else err unsupported_profile)
