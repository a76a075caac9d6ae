-- ===== src/Volume/Plain.antt =====
-- Under a cipher that decrypts every sector, a volume of src/volume.rs shows a disk.
use Prim.Native.Nat.{suc}
use winluks.Base.{
  ℕ, ◌+◌, ◌*◌, ◌/◌, ◌%◌, ◌<◌, ◌≡◌, refl, ap, sym, ◌∙◌, List, [], ◌∷◌, some, arith, length, get_or,
}
use winluks.Base.Contents.{Contents, slice, length-slice}
use winluks.Image.Os.{Backend, IsFile}
use winluks.Crypto.Primitives.{Libraries, IsCipher, decrypt}
use winluks.Crypto.{sector_iv}
use winluks.Volume.{UnlockedVolume}
use winluks.Volume.Payload.{Shows}

-- Decryption under a key of a supported size fails for no sector.
pub record Decrypts (P : Libraries) (key : List ℕ) : Type 0 where
  pub plain : List ℕ → List ℕ → List ℕ
  pub decrypted :
      (iv sector : List ℕ)
      → length sector ≡ 512
      → P.xts decrypt key iv sector ≡ some (plain iv sector)

slice-get_or :
    (f : Contents) (o : ℕ) (xs : List ℕ)
    → ((i : ℕ) → i < length xs → f (o + i) ≡ get_or xs i 0)
    → slice f o (length xs) ≡ xs
unfolding slice
slice-get_or f o [] h = refl
slice-get_or f o (x ∷ xs) h =
    let at : o + 0 ≡ o = omega arith in
    let first : f o ≡ x = ap f (sym at) ∙ h 0 (omega arith) in
    let rest = slice-get_or f (o + 1) xs (λ i p. ap f (omega arith) ∙ h (suc i) (omega arith)) in
    cc (first, rest)

module _ {B : Backend} (L : IsFile B) (P : Libraries) (C : IsCipher P) (v : UnlockedVolume B)
    (D : Decrypts P v.key.bytes) where
  abbrev sector : ℕ → List ℕ
  sector j = D.plain (sector_iv j) (slice (L.contents v.image.file) (v.offset + 512 * j) 512)

  -- The plaintext of the payload, sector by sector.
  pub plain_disk : Contents
  plain_disk i = get_or (sector (i / 512)) (i % 512) 0

  sector_decrypted :
      (j : ℕ)
      → P.xts decrypt v.key.bytes
          (sector_iv j)
          (slice (L.contents v.image.file) (v.offset + 512 * j) 512)
        ≡ some (sector j)
  sector_decrypted j = D.decrypted (sector_iv j) _ (length-slice _ _ 512)

  pub plain_disk-Shows : Shows L P v plain_disk
  unfolding plain_disk
  plain_disk-Shows = record {
    sectors = λ j within.
        let size : length (sector j) ≡ 512 =
          C.length-xts decrypt v.key.bytes (sector_iv j) _ (sector j) (sector_decrypted j)
          ∙ length-slice _ _ 512 in
        let same = slice-get_or plain_disk (512 * j) (sector j) (λ i p.
          let at : (512 * j + i) / 512 ≡ j = omega (arith, size) in
          let place : (512 * j + i) % 512 ≡ i = omega (arith, size) in
          ap (λ k. get_or (sector k) ((512 * j + i) % 512) 0) at
          ∙ ap (λ k. get_or (sector j) k 0) place) in
        sector_decrypted j ∙ ap some (sym same ∙ ap (slice plain_disk (512 * j)) size);
  }
