-- ===== src/Crypto/Primitives.antt =====
-- The cryptographic libraries below src/crypto.rs (OpenSSL and argon2), and what is relied on.
use winluks.Base.{ℕ, ◌≡◌, Bool, List, Option, some, length}

pub data Direction : Type 0 where
  encrypt decrypt : Direction

-- `Hash` of src/crypto.rs
pub data Hash : Type 0 where
  sha256 sha512 : Hash

pub data Kdf : Type 0 where
  pbkdf2 : Hash → ℕ → List ℕ → Kdf
  argon2 : Bool → ℕ → ℕ → ℕ → List ℕ → Kdf

-- `none` is an error of the library.
pub record Libraries : Type 0 where
  -- AES-XTS, of a key, an IV and one data unit: what `update` and `finalize` put out
  pub xts : Direction → List ℕ → List ℕ → List ℕ → Option (List ℕ)
  pub hash : Hash → List ℕ → Option (List ℕ)
  -- password, salt, iterations, hash, output size
  pub pbkdf2_hmac : List ℕ → List ℕ → ℕ → Hash → ℕ → Option (List ℕ)
  -- `argon2::Params::new` with the block count of its result: memory, time, cpus, output size
  pub argon2_block_count : ℕ → ℕ → ℕ → ℕ → Option ℕ
  -- whether the blocks can be allocated
  pub can_reserve : ℕ → Bool
  -- Argon2id or Argon2i, memory, time, cpus, password, salt, output size
  pub argon2_hash : Bool → ℕ → ℕ → ℕ → List ℕ → List ℕ → ℕ → Option (List ℕ)
  -- the nanoseconds that a derivation takes: of the function, the password and the output size
  pub elapsed : Kdf → List ℕ → ℕ → ℕ

-- XTS keeps the length of a sector, and under one key and IV decryption undoes encryption.
pub record IsCipher (P : Libraries) : Type 0 where
  pub decrypt-encrypt :
      (key iv sector out : List ℕ)
      → P.xts encrypt key iv sector ≡ some out
      → P.xts decrypt key iv out ≡ some sector
  pub length-xts :
      (dir : Direction) (key iv sector out : List ℕ)
      → P.xts dir key iv sector ≡ some out
      → length out ≡ length sector
