-- ===== src/Crypto.antt =====
-- src/crypto.rs: sector encryption, key derivation, the anti-forensic merge and the key store.
-- The libraries that it calls are the parameter `Primitives`.
pub mod Primitives
pub mod Sectors
pub mod KeyPage
use winluks.Base.{
  str_eq, ℕ, zero, suc, ◌+◌, ◌*◌, ◌%◌, ◌/◌, ◌^◌, Bool, true, false, List, [], ◌∷◌, ◌++◌,
}
use winluks.Base.{String, not, ltb, ◌==◌, ◌!=◌, ◌||◌, if◌then◌else◌, length, take, drop, replicate}
use winluks.Base.{Option, none, some}
use winluks.Base.Words.{checked_add, is_multiple_of}
use winluks.Error.{Error, Result, ok, err, ◌>>=◌, ◌>>◌, reject_if, ok_or}
use winluks.Error.{invalid_range, unsupported_profile, crypto, resource_limit, metadata_invalid}
use Prim.Native.Nat.{bit_xor}
use Primitives.{Direction, encrypt, decrypt, Hash, sha256, sha512, Kdf, pbkdf2, argon2, Libraries}

-- `Hash::parse`
unfoldable pub parse_hash : String → Result Hash
parse_hash s =
    if str_eq s "sha256"
    then ok sha256
    else if str_eq s "sha512"
    then ok sha512
    else err unsupported_profile

-- `Hash::size`
abbrev pub hash_size : Hash → ℕ
hash_size sha256 = 32
hash_size sha512 = 64

-- `n.to_le_bytes()`, of k bytes.
abbrev pub to_le_bytes : ℕ → ℕ → List ℕ
to_le_bytes zero n = []
to_le_bytes (suc k) n = (n % 256) ∷ to_le_bytes k (n / 256)

abbrev pub sector_size : ℕ
sector_size = 512

-- The IV of a sector: its number in the first eight of sixteen bytes.
unfoldable pub sector_iv : ℕ → List ℕ
sector_iv n = to_le_bytes 8 n ++ replicate 8 0

-- `![32, 64].contains(&size)`
abbrev pub not_key_size : ℕ → Bool
not_key_size n = not (n == 32 || n == 64)

module _ (P : Libraries) where
  -- `Hash::digest`
  unfoldable pub digest : Hash → List ℕ → Result (List ℕ)
  digest h b = ok_or (P.hash h b) crypto

  abbrev derive_pbkdf2 : Hash → ℕ → List ℕ → List ℕ → ℕ → Result (List ℕ)
  derive_pbkdf2 hash iterations salt password size = do
    reject_if (iterations == 0 || ltb 10_000_000 iterations) resource_limit
    ok_or (P.pbkdf2_hmac password salt iterations hash size) crypto

  abbrev derive_argon2 : Bool → ℕ → ℕ → ℕ → List ℕ → List ℕ → ℕ → Result (List ℕ)
  derive_argon2 id memory time cpus salt password size = do
    reject_if (ltb 1_048_576 memory || ltb 10 time || ltb 8 cpus) resource_limit
    blocks ← ok_or (P.argon2_block_count memory time cpus size) metadata_invalid
    reject_if (not (P.can_reserve blocks)) resource_limit
    ok_or (P.argon2_hash id memory time cpus password salt size) crypto

  abbrev derive_key : Kdf → List ℕ → ℕ → Result (List ℕ)
  derive_key (pbkdf2 hash iterations salt) password size =
      derive_pbkdf2 hash iterations salt password size
  derive_key (argon2 id memory time cpus salt) password size =
      derive_argon2 id memory time cpus salt password size

  -- `Kdf::derive`. The derivation takes `P.elapsed` nanoseconds.
  unfoldable pub derive : Kdf → List ℕ → ℕ → Result (List ℕ)
  derive kdf password size = do
    reject_if (size == 0 || ltb 64 size) resource_limit
    out ← derive_key kdf password size
    reject_if (ltb 120_000_000_000 (P.elapsed kdf password size)) resource_limit
    ok out

  module _ (dir : Direction) (key : List ℕ) (first : ℕ) where
    -- The loop of `crypt_sectors` over the sectors that are left, from the sector `i`.
    unfoldable pub crypt_loop : ℕ → ℕ → List ℕ → Result (List ℕ)
    crypt_loop zero i text = ok []
    crypt_loop (suc left) i text = do
      n ← ok_or (checked_add first i) invalid_range
      out ← ok_or (P.xts dir key (sector_iv n) (take sector_size text)) crypto
      reject_if (length out != sector_size) crypto
      more ← crypt_loop left (i + 1) (drop sector_size text)
      ok (out ++ more)

    unfoldable pub crypt_sectors : List ℕ → Result (List ℕ)
    crypt_sectors text = do
      reject_if (not_key_size (length key)) unsupported_profile
      reject_if (not (is_multiple_of (length text) 512) || ltb (1024 * 1024) (length text))
          invalid_range
      crypt_loop (length text / 512) 0 text

  abbrev pub decrypt_sectors : List ℕ → ℕ → List ℕ → Result (List ℕ)
  decrypt_sectors = crypt_sectors decrypt

  abbrev pub encrypt_sectors : List ℕ → ℕ → List ℕ → Result (List ℕ)
  encrypt_sectors = crypt_sectors encrypt

-- `for (a, b) in state.iter_mut().zip(stripe) { *a ^= b }`
unfoldable pub xor_bytes : List ℕ → List ℕ → List ℕ
xor_bytes [] bs = []
xor_bytes (a ∷ as') [] = a ∷ as'
xor_bytes (a ∷ as') (b ∷ bs) = bit_xor a b ∷ xor_bytes as' bs

-- `n.to_be_bytes()` of a `u32`
abbrev pub to_be_bytes : ℕ → List ℕ
to_be_bytes n = (n / 2 ^ 24 % 256) ∷ (n / 2 ^ 16 % 256) ∷ (n / 2 ^ 8 % 256) ∷ (n % 256) ∷ []

module _ (P : Libraries) (alg : Hash) where
  -- The loop over `state.chunks_mut(hash_alg.size())`: it has no more rounds than bytes.
  unfoldable pub diffuse : ℕ → ℕ → List ℕ → Result (List ℕ)
  diffuse rounds index [] = ok []
  diffuse zero index (b ∷ bs) = ok (b ∷ bs)
  diffuse (suc rounds) index (b ∷ bs) = do
    let part = take (hash_size alg) (b ∷ bs)
    h ← digest P alg (to_be_bytes index ++ part)
    more ← diffuse rounds (index + 1) (drop (hash_size alg) (b ∷ bs))
    ok (take (length part) h ++ more)

  -- The loop over the stripes before the last one, of which `stripes` are left.
  unfoldable pub merge_loop : ℕ → ℕ → List ℕ → List ℕ → Result (List ℕ)
  merge_loop size zero state text = ok state
  merge_loop size (suc stripes) state text = do
    next ← diffuse size 0 (xor_bytes state (take size text))
    merge_loop size stripes next (drop size text)

  unfoldable pub af_merge : List ℕ → ℕ → Result (List ℕ)
  af_merge text key_size = do
    reject_if (not_key_size key_size || length text != key_size * 4000) metadata_invalid
    state ← merge_loop key_size 3999 (replicate key_size 0) (take (key_size * 3999) text)
    ok (xor_bytes state (drop (key_size * 3999) text))

-- A dedicated page with the key, and whether the page is locked in memory.
pub record VolumeKey : Type 0 where
  pub bytes : List ℕ
  pub locked : Bool

-- `VolumeKey::new`: the allocation, and `mlock` or `VirtualLock`, may fail.
unfoldable pub new_volume_key : Bool → Bool → List ℕ → Result VolumeKey
new_volume_key allocated locked bytes = do
  reject_if (not_key_size (length bytes)) crypto
  reject_if (not allocated) resource_limit
  ok (record { bytes = bytes; locked = locked })
