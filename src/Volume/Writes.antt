-- ===== src/Volume/Writes.antt =====
-- Writes of src/volume.rs that are acknowledged have changed the disk that the volume shows, and
-- no write changes anything outside its range.
use winluks.Base.{
  ℕ, ◌+◌, ◌-◌, ◌*◌, ◌/◌, ◌%◌, ◌≤◌, ◌<◌, ◌≡◌, ◌⊎◌, inl, inr, refl, ◌∙◌, List, [], ◌∷◌, some, arith,
}
use native.Mathlib.Decide.{dec_lt}
use winluks.Base.{length, take, drop}
use winluks.Base.Contents.{Contents, slice, slice-ext, overwrite, overwrite-below, overwrite-above}
use winluks.Base.Contents.{slice-overwrite_part}
use winluks.Error.{Result, ok, err}
use winluks.Image.Os.{Backend, IsFile}
use winluks.Image.{write_all_at}
use winluks.Image.Access.{write_all_at-contents, write_all_at-outside, sync-contents}
use winluks.Crypto.Primitives.{Libraries, IsCipher, encrypt, decrypt}
use winluks.Crypto.{sector_iv, crypt_loop, crypt_sectors}
use winluks.Crypto.Sectors.{crypt_loop-sector, crypt_loop-length, length-crypt_sectors}
use winluks.Volume.{UnlockedVolume, write_at, write_locked, store}
use winluks.Volume.Payload.{IsPlaced, Shows}
use winluks.Volume.Frame.{write_at-SameSession}

untouched :
    (f : Contents) (o : ℕ) (b : List ℕ) (i : ℕ)
    → (i < o) ⊎ (o + length b ≤ i)
    → overwrite f o b i ≡ f i
untouched f o b i (inl below) = overwrite-below f o b i below
untouched f o b i (inr above) = overwrite-above f o b i above

module _ (B : Backend) (L : IsFile B) (P : Libraries) (v : UnlockedVolume B) where
  store-contents :
      (target : ℕ) (encrypted : List ℕ) (i : ℕ)
      → (store B P v target encrypted).0 ≡ ok tt
      → L.contents (store B P v target encrypted).1.image.file i
        ≡ overwrite (L.contents v.image.file) target encrypted i
  unfolding store
  store-contents target encrypted i e =
      let im = (write_all_at B v.image target encrypted).1 in
      ground (arith, write_all_at-contents B L v.image target encrypted i, sync-contents B L im i)

  store-outside :
      (target : ℕ) (encrypted : List ℕ) (i : ℕ)
      → (i < target) ⊎ (target + length encrypted ≤ i)
      → L.contents (store B P v target encrypted).1.image.file i ≡ L.contents v.image.file i
  unfolding store
  store-outside target encrypted i out =
      let im = (write_all_at B v.image target encrypted).1 in
      ground
        (arith, write_all_at-outside B L v.image target encrypted i out, sync-contents B L im i)

  -- Whatever becomes of a write, the bytes of the image outside its range stay as they are, if the
  -- backend behaves as a file.
  pub write_at-outside :
      (offset : ℕ) (plaintext : List ℕ) (i : ℕ)
      → (i < v.offset + offset) ⊎ (v.offset + offset + length plaintext ≤ i)
      → L.contents (write_at B P v offset plaintext).1.image.file i ≡ L.contents v.image.file i
  unfolding write_at write_locked
  write_at-outside offset plaintext i out = by_result _ refl
    where
      by_result :
          (r : Result (List ℕ))
          → crypt_sectors P encrypt v.key.bytes (offset / 512) plaintext ≡ r
          → L.contents (write_at B P v offset plaintext).1.image.file i ≡ L.contents v.image.file i
      by_result (ok encrypted) q = ground (
        arith,
        store-outside (v.offset + offset) encrypted i,
        length-crypt_sectors P v.key.bytes (offset / 512) encrypt plaintext encrypted q,
      )
      by_result (err x) q = ground arith

  -- What an acknowledged write has done.
  record Acknowledged (offset : ℕ) (plaintext : List ℕ) (w : UnlockedVolume B) : Type 0 where
    encrypted : List ℕ
    crypted :
        crypt_loop P encrypt v.key.bytes (offset / 512) (length plaintext / 512) 0 plaintext
        ≡ ok encrypted
    aligned : offset % 512 ≡ 0
    whole : length plaintext % 512 ≡ 0
    stored :
        (i : ℕ)
        → L.contents w.image.file i
          ≡ overwrite (L.contents v.image.file) (v.offset + offset) encrypted i

  write_at-Acknowledged :
      (offset : ℕ) (plaintext : List ℕ)
      → (write_at B P v offset plaintext).0 ≡ ok tt
      → Acknowledged offset plaintext (write_at B P v offset plaintext).1
  unfolding write_at write_locked crypt_sectors
  write_at-Acknowledged offset [] e = record {
    encrypted = [];
    crypted = unfold crypt_loop in refl;
    aligned = ground arith;
    whole = omega arith;
    stored = λ i. unfold overwrite in ground arith;
  }
  write_at-Acknowledged offset (x ∷ xs) e = by_result _ refl
    where
      by_result :
          (r : Result (List ℕ))
          → crypt_sectors P encrypt v.key.bytes (offset / 512) (x ∷ xs) ≡ r
          → Acknowledged offset (x ∷ xs) (write_at B P v offset (x ∷ xs)).1
      by_result (ok encrypted) q = record {
        encrypted = encrypted;
        crypted = ground arith;
        aligned = ground arith;
        whole = ground arith;
        stored = λ i. ground (arith, store-contents (v.offset + offset) encrypted i);
      }
      by_result (err x) q = absurd (ground arith)

module _ (B : Backend) (L : IsFile B) (P : Libraries) (C : IsCipher P) (v : UnlockedVolume B)
    (disk : Contents) (placed : IsPlaced v) (shows : Shows L P v disk) (offset : ℕ)
    (plaintext : List ℕ) where
  -- The sectors that a write covers decrypt to the plaintext of the request.
  sector_inside :
      (w : UnlockedVolume B) (j k : ℕ)
      → Acknowledged B L P v offset plaintext w
      → j ≡ offset / 512 + k
      → k < length plaintext / 512
      → P.xts decrypt v.key.bytes
          (sector_iv j)
          (slice (L.contents w.image.file) (v.offset + 512 * j) 512)
        ≡ some (slice (overwrite disk offset plaintext) (512 * j) 512)
  sector_inside w j k a at inside =
      let size : length a.encrypted ≡ 512 * (length plaintext / 512) =
        crypt_loop-length P encrypt v.key.bytes (offset / 512) _ 0 plaintext a.encrypted
          a.crypted in
      let cipher : slice (L.contents w.image.file) (v.offset + 512 * j) 512
          ≡ take 512 (drop (512 * k) a.encrypted) =
        slice-ext _ _ (v.offset + 512 * j) 512 (λ i _ _. a.stored i)
        ∙ slice-overwrite_part (L.contents v.image.file) (v.offset + offset) a.encrypted (512 * k)
            512 (v.offset + 512 * j) (omega arith) (omega (arith, a.aligned)) in
      let plain : slice (overwrite disk offset plaintext) (512 * j) 512
          ≡ take 512 (drop (512 * k) plaintext) =
        slice-overwrite_part disk offset plaintext (512 * k) 512 (512 * j) (omega arith)
          (omega (arith, a.aligned)) in
      let number : offset / 512 + (0 + k) ≡ j = omega arith in
      let done =
        crypt_loop-sector P encrypt v.key.bytes (offset / 512) (length plaintext / 512) 0 k
          plaintext a.encrypted inside a.crypted in
      rw (cipher, plain) (C.decrypt-encrypt v.key.bytes (sector_iv j) _ _ (rw number at done))

  -- The other sectors are those of before.
  sector_outside :
      (w : UnlockedVolume B) (j : ℕ)
      → Acknowledged B L P v offset plaintext w
      → (j < offset / 512) ⊎ (offset / 512 + length plaintext / 512 ≤ j)
      → 512 * j < v.len
      → P.xts decrypt v.key.bytes
          (sector_iv j)
          (slice (L.contents w.image.file) (v.offset + 512 * j) 512)
        ≡ some (slice (overwrite disk offset plaintext) (512 * j) 512)
  sector_outside w j a out within =
      let size : length a.encrypted ≡ 512 * (length plaintext / 512) =
        crypt_loop-length P encrypt v.key.bytes (offset / 512) _ 0 plaintext a.encrypted
          a.crypted in
      let cipher : slice (L.contents w.image.file) (v.offset + 512 * j) 512
          ≡ slice (L.contents v.image.file) (v.offset + 512 * j) 512 =
        slice-ext _ _ (v.offset + 512 * j) 512 (λ i p q.
          a.stored i
          ∙ untouched (L.contents v.image.file) (v.offset + offset) a.encrypted i
              (ground (arith, a.aligned, a.whole))) in
      let plain : slice (overwrite disk offset plaintext) (512 * j) 512 ≡ slice disk (512 * j) 512 =
        slice-ext _ _ (512 * j) 512
          (λ i p q. untouched disk offset plaintext i (ground (arith, a.aligned, a.whole))) in
      rw (cipher, plain) (shows.sectors j within)

  sector_written :
      (w : UnlockedVolume B) (j : ℕ)
      → Acknowledged B L P v offset plaintext w
      → 512 * j < v.len
      → P.xts decrypt v.key.bytes
          (sector_iv j)
          (slice (L.contents w.image.file) (v.offset + 512 * j) 512)
        ≡ some (slice (overwrite disk offset plaintext) (512 * j) 512)
  sector_written w j a within = elim (dec_lt j (offset / 512)) [
    | yes p ↦ sector_outside w j a (inl p) within
    | no p ↦ elim (dec_lt j (offset / 512 + length plaintext / 512)) [
      | yes q ↦ sector_inside w j (j - offset / 512) a (omega arith) (omega arith)
      | no q ↦ sector_outside w j a (inr (omega arith)) within
    ]
  ]

  -- An acknowledged write to a volume that shows a disk leaves a volume that shows the disk with
  -- the plaintext put at its offset, if the payload lies in whole sectors inside the image, the
  -- backend behaves as a file and the cipher decrypts what it encrypted.
  pub write_at-Shows :
      (write_at B P v offset plaintext).0 ≡ ok tt
      → Shows L P (write_at B P v offset plaintext).1 (overwrite disk offset plaintext)
  write_at-Shows e =
      let w = (write_at B P v offset plaintext).1 in
      let s = write_at-SameSession B P v offset plaintext in
      record {
        sectors = λ j within.
            rw (s.key, s.offset)
              (sector_written w j (write_at-Acknowledged B L P v offset plaintext e)
                (omega (arith, s.len)));
      }
