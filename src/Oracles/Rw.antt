-- ===== src/Oracles/Rw.antt =====
-- examples/rw_oracle.rs: writes and reads over a copy of a fixture, and the bytes before the payload,
-- which must not change. What is modelled begins where the image is opened and ends with the last
-- assertion.
pub mod Prefix
pub mod Session
pub mod Refusals
pub mod Upheld
pub mod Passes
use winluks.Base.{
  ℕ, ◌+◌, ◌-◌, ◌*◌, ◌/◌, ◌%◌, ◌^◌, ◌≡◌, refl, Bool, true, false, List, [], ◌∷◌, String,
}
use winluks.Base.{
  zero, suc, ltb, leb, ◌==◌, Option, none, some, if◌then◌else◌, length, str_eq, replicate,
}
use winluks.Error.{Error, Result, Outcome, ok, err, panic, unfinished}
use winluks.Image.Os.{Backend}
use winluks.Image.{Image, AccessMode, read_exact_at}
use winluks.Image.Open.{FileSystem}
use winluks.Crypto.Primitives.{Libraries}
use winluks.Metadata.{Metadata}
use winluks.Metadata.Header
use winluks.Metadata.Header.{Codecs}
use winluks.Probe.{Filesystem}
use winluks.Probe.Fields.{same_bytes}
use winluks.Volume.{UnlockedVolume, validate}
use winluks.Volume.Unlock.{unlock}
use winluks.Adapter
use winluks.Adapter.{BlockAdapter, inner, new_adapter}
use winluks.Adapter.Windows.Consumer.{hex}
use winluks.Oracles.{
  Trial, done, quit, refuted, panicked, endless, attempt, attempt_open, require, and_then, claim,
  expect, is_invalid_range, is_unsupported_operation, is_stopping, Hasher, Place, open_image,
  mebibyte, smaller, zeros, filesystem_of,
}

-- `(i as u8).wrapping_mul(17).wrapping_add(seed)` of the first `length` numbers from `i` on
unfoldable pub pattern : ℕ → ℕ → ℕ → List ℕ
pattern seed i zero = []
pattern seed i (suc n) = ((i % 256 * 17) % 256 + seed) % 256 ∷ pattern seed (suc i) n

-- `(index * 29 + 0x53) as u8`
abbrev pub seed_of : ℕ → ℕ
seed_of index = (index * 29 + 0x53) % 256

-- The ranges to write, of a volume of at least one sector.
abbrev pub changes : ℕ → List (ℕ × ℕ)
changes len =
    (0, 512)
    ∷ (512, 1024)
    ∷ (65024, 1536)
    ∷ (131072, mebibyte)
    ∷ (131584, 512)
    ∷ (len - 512, 512)
    ∷ []

-- What the manifest of the fixture says, and the password of its file.
pub record Fixture : Type 0 where
  pub place : Place
  pub filesystem : Option String
  pub keyslot : Option ℕ
  pub password : List ℕ

module _ (H : Hasher) {B : Backend} where
  unfoldable pub prefix_loop : ℕ → Image B → ℕ → ℕ → H.State → Trial (List ℕ × Image B)
  prefix_loop zero im len offset hash = endless
  prefix_loop (suc fuel) im len offset hash = elim (ltb offset len) [
    | false ↦ require (H.finish hash) (λ digest. done (hex digest, im))
    | true ↦
        let n = smaller (len - offset) mebibyte in
        let (r, jm) = read_exact_at B im offset n in
        attempt r (λ buffer.
          require (H.update hash buffer) (λ next. prefix_loop fuel jm len (offset + n) next))
  ]

  -- `prefix`, with the image that it leaves
  unfoldable pub prefix : Image B → ℕ → Trial (List ℕ × Image B)
  prefix im len = require H.new (λ hash. prefix_loop (suc len) im len 0 hash)

module _ (P : Libraries) {B : Backend} where
  unfoldable pub write_changes : List (ℕ × ℕ) → ℕ → BlockAdapter B → Trial (BlockAdapter B)
  write_changes [] index a = done a
  write_changes ((offset, n) ∷ rest) index a =
      let bytes = pattern (seed_of index) 0 n in
      let (w, b) = Adapter.write B P a (offset / 512) bytes in
      attempt w (λ _.
        let (r, c) = Adapter.read B P b (offset / 512) (n / 512 % 2 ^ 32) in
        attempt r (λ got. claim (same_bytes got bytes) (write_changes rest (suc index) c)))

  -- The calls that must be refused, around the flush and the stop.
  unfoldable pub refusals : BlockAdapter B → Trial (BlockAdapter B)
  refusals a =
      let (past, b) = Adapter.write B P a (2 ^ 64 - 1) zeros in
      expect is_invalid_range past (
        let (end, c) = Adapter.write B P b ((inner B b).len / 512) zeros in
        expect is_invalid_range end (
          let (unmapped, d) = Adapter.unmap B c in
          expect is_unsupported_operation unmapped (
            let (flushed, e) = Adapter.flush B d 0 0 in
            attempt flushed (λ _.
              let (late, f) = Adapter.write B P (Adapter.stop B e) 0 zeros in
              expect is_stopping late (done f)))))

  -- The session of the adapter. The last range underflows where there is no sector.
  unfoldable pub rewrite : BlockAdapter B → Trial (BlockAdapter B)
  rewrite a = elim (leb 512 (inner B a).len) [
    | false ↦ panicked
    | true ↦ and_then (write_changes (changes (inner B a).len) 0 a) refusals
  ]

-- `closed f` is the file system after the handle `f` of the image is dropped.
module _ (H : Hasher) (codecs : Codecs) (P : Libraries) (crc32c : List ℕ → ℕ)
    (allocated locked : Bool) {B : Backend} (F : FileSystem B)
    (closed : B.File → FileSystem B) where
  unfoldable pub reopen : Place → ℕ → ℕ → List ℕ → B.File → Trial (Unit {0})
  reopen place original_size offset before file =
      attempt_open (open_image (closed file) place AccessMode.read_only) (λ after.
        claim (after.len == original_size) (
          and_then (prefix H after offset)
            (λ (digest, _). claim (same_bytes digest before) (done tt))))

  unfoldable pub with_prefix : Fixture → Image B → ℕ → List ℕ → Trial (Unit {0})
  with_prefix x im offset before = require (filesystem_of x.filesystem) (λ fs.
      require x.keyslot (λ keyslot.
        attempt (unlock codecs P B allocated locked im (keyslot % 2 ^ 32) x.password) (λ v.
          attempt (validate B P crc32c v fs).0 (λ valid.
            and_then (rewrite P (new_adapter B valid))
              (λ a. reopen x.place im.len offset before (inner B a).image.file)))))

  unfoldable pub main : Fixture → Trial (Unit {0})
  main x = attempt_open (open_image F x.place AccessMode.read_write) (λ image.
      let (r, im) = Header.read codecs P B image in
      attempt r (λ meta.
        and_then (prefix H im meta.offset) (λ (before, jm). with_prefix x jm meta.offset before)))
