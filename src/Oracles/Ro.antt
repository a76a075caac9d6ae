-- ===== src/Oracles/Ro.antt =====
-- examples/oracle.rs: reads of a fixture that is opened read-only, against what its manifest says of
-- it. What is modelled begins where the image is opened and ends before the hash of the image file,
-- which is read without the library.
pub mod Intact
pub mod Whole
pub mod Ranges
pub mod Upheld
use winluks.Base.{ℕ, ◌+◌, ◌-◌, ◌*◌, ◌^◌, Bool, true, false, List, [], ◌∷◌, String}
use winluks.Base.{zero, suc, ltb, leb, ◌==◌, ◌&&◌, Option, none, some, if◌then◌else◌}
use winluks.Error.{Error, Result, Outcome, ok, err, panic, unfinished}
use winluks.StrictJson.{codes}
use winluks.Image.Os.{Backend}
use winluks.Image.{Image, AccessMode, read_exact_at}
use winluks.Image.Open.{FileSystem}
use winluks.Crypto.Primitives.{Libraries}
use winluks.Metadata.{Metadata, slot_ids}
use winluks.Metadata.Header
use winluks.Metadata.Header.{Codecs}
use winluks.Probe.{Filesystem}
use winluks.Probe.Fields.{same_bytes}
use winluks.Volume.{UnlockedVolume, ValidatedVolume, validate, read_at}
use winluks.Volume.Unlock.{unlock}
use winluks.Adapter
use winluks.Adapter.{BlockAdapter, new_adapter}
use winluks.Adapter.Windows.Consumer.{hex}
use winluks.Program.{has_slot}
use winluks.Oracles.{
  Trial, done, quit, refuted, panicked, endless, attempt, attempt_open, require, and_then, claim,
  expect, succeed, unwrap, is_invalid_range, is_read_only, is_unlock_failed, is_stopping, Hasher,
  Place, open_image, mebibyte, smaller, zeros, filesystem_of,
}

-- What the manifest of the fixture says, and the password of its file.
pub record Fixture : Type 0 where
  pub place : Place
  pub keyslot : Option ℕ
  pub password : List ℕ
  pub plaintext_bytes : Option ℕ
  pub different_slot_password : Bool
  pub plaintext_sha256 : Option (List ℕ)
  -- the file of the plaintext, and whether it exists
  pub plaintext : Option Place
  pub exists : Bool
  pub filesystem : Option String

-- `u32::try_from(..)?`
abbrev pub small_slot : ℕ → Option ℕ
small_slot n = if ltb n (2 ^ 32) then some n else none

abbrev pub is_empty : List ℕ → Bool
is_empty [] = true
is_empty (x ∷ xs) = false

-- The ranges to compare, of a volume of at least one sector.
abbrev pub ranges : ℕ → List (ℕ × ℕ)
ranges len = (0, 512) ∷ (511, 1025) ∷ (1024, 1024) ∷ (65536, 4096) ∷ (len - 512, 512) ∷ []

module _ (H : Hasher) (P : Libraries) {B : Backend} where
  unfoldable pub volume_loop :
      ℕ → UnlockedVolume B → ℕ → H.State → Trial (List ℕ × UnlockedVolume B)
  volume_loop zero v offset hash = endless
  volume_loop (suc fuel) v offset hash = elim (ltb offset v.len) [
    | false ↦ require (H.finish hash) (λ digest. done (hex digest, v))
    | true ↦
        let n = smaller (v.len - offset) mebibyte in
        let (r, w) = read_at B P v offset n in
        attempt r
          (λ bytes. require (H.update hash bytes) (λ next. volume_loop fuel w (offset + n) next))
  ]

  unfoldable pub whole_volume : Option (List ℕ) → UnlockedVolume B → Trial (UnlockedVolume B)
  whole_volume sha v = require H.new (λ hash.
      and_then (volume_loop (suc v.len) v 0 hash)
        (λ (got, w). unwrap sha (λ expected. claim (same_bytes got expected) (done w))))

module _ (P : Libraries) {B : Backend} where
  unfoldable pub boundaries : UnlockedVolume B → Trial (UnlockedVolume B)
  boundaries v =
      let (far, w) = read_at B P v (2 ^ 64 - 1) 512 in
      expect is_invalid_range far (
        let (past, u) = read_at B P w w.len 512 in
        expect is_invalid_range past (
          let (nothing, y) = read_at B P u u.len 0 in
          attempt nothing (λ bytes. claim (is_empty bytes) (done y))))

  unfoldable pub compare_ranges :
      List (ℕ × ℕ) → Image B → UnlockedVolume B → Trial (UnlockedVolume B)
  compare_ranges [] oracle v = done v
  compare_ranges ((offset, n) ∷ rest) oracle v =
      let (r, next) = read_exact_at B oracle offset n in
      attempt r (λ expected.
        let (s, w) = read_at B P v offset n in
        attempt s (λ got. claim (same_bytes got expected) (compare_ranges rest next w)))

  -- The comparison with the file of the plaintext, where there is one.
  unfoldable pub compare :
      FileSystem B → Option Place → Bool → UnlockedVolume B → Trial (UnlockedVolume B)
  compare F plaintext exists v = unwrap plaintext (λ place. elim exists [
    | false ↦ done v
    | true ↦ attempt_open (open_image F place AccessMode.read_only) (λ oracle.
        elim (leb 512 v.len) [ false ↦ panicked | true ↦ compare_ranges (ranges v.len) oracle v ])
  ])

  unfoldable pub callbacks : BlockAdapter B → Trial (Unit {0})
  callbacks a =
      let (written, b) = Adapter.write B P a 0 zeros in
      expect is_read_only written (
        let (unmapped, c) = Adapter.unmap B b in
        expect is_read_only unmapped (
          let (flushed, d) = Adapter.flush B c 0 0 in
          succeed flushed (
            let (late, e) = Adapter.read B P (Adapter.stop B d) 0 1 in
            expect is_stopping late (done tt))))

module _ (H : Hasher) (codecs : Codecs) (P : Libraries) (crc32c : List ℕ → ℕ)
    (allocated locked : Bool) {B : Backend} (F : FileSystem B) where
  -- All that follows the unlocking of the volume.
  unfoldable pub checks : Fixture → UnlockedVolume B → Trial (Unit {0})
  checks x v = and_then (whole_volume H P x.plaintext_sha256 v) (λ w.
      and_then (boundaries P w) (λ u. and_then (compare P F x.plaintext x.exists u) (λ y.
        unwrap x.filesystem (λ name. require (filesystem_of (some name)) (λ fs.
          attempt (validate B P crc32c y fs).0 (λ valid. callbacks P (new_adapter B valid)))))))

  -- An unlocking of the image, opened anew, that must fail.
  abbrev pub locked_out : {A : Type 0} → Place → ℕ → List ℕ → Trial A → Trial A
  locked_out place slot password next =
      attempt_open (open_image F place AccessMode.read_only) (λ other.
        expect is_unlock_failed (unlock codecs P B allocated locked other slot password) next)

  unfoldable pub main : Fixture → Trial (Unit {0})
  main x = attempt_open (open_image F x.place AccessMode.read_only) (λ image.
      require x.keyslot (λ keyslot. require (small_slot keyslot) (λ slot.
        let (r, im) = Header.read codecs P B image in
        attempt r (λ meta. unwrap x.plaintext_bytes (λ n. claim (meta.length == n) (
          locked_out x.place slot (codes "intentionally-wrong") (
            let unlocking =
              attempt (unlock codecs P B allocated locked im slot x.password) (checks x) in
            if x.different_slot_password && has_slot 0 (slot_ids meta)
            then locked_out x.place 0 x.password unlocking
            else unlocking)))))))
