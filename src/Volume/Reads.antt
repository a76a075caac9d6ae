-- ===== src/Volume/Reads.antt =====
-- Reads of src/volume.rs return the bytes of the disk that the volume shows.
use winluks.Base.{ℕ, ◌+◌, ◌-◌, ◌*◌, ◌/◌, ◌≤◌, ◌≡◌, refl, ap, ◌∙◌, List, [], arith, take, drop}
use winluks.Base.Contents.{Contents, slice, take-slice, drop-slice}
use winluks.Error.{Result, Outcome, ok, err, panic, unfinished}
use winluks.Image.Os.{Backend, IsFile}
use winluks.Image.{read_exact_at}
use winluks.Image.Access.{read_exact_at-slice, read_exact_at-contents}
use winluks.Crypto.Primitives.{Libraries, decrypt}
use winluks.Crypto.{crypt_sectors}
use winluks.Crypto.Sectors.{crypt_sectors-slice}
use winluks.Volume.{UnlockedVolume, read_at, read_locked, read_sectors, out_of_range, cut}
use winluks.Volume.Payload.{IsPlaced, Shows}

module _ (B : Backend) (L : IsFile B) (P : Libraries) (v : UnlockedVolume B) where
  -- A read writes nothing.
  read_sectors-contents :
      (offset len start size place i : ℕ)
      → L.contents (read_sectors B P v offset len start size place).1.image.file i
        ≡ L.contents v.image.file i
  unfolding read_sectors
  read_sectors-contents offset len start size place i =
      ground (arith, read_exact_at-contents B L v.image place size i)

  pub read_at-contents :
      (offset len i : ℕ)
      → L.contents (read_at B P v offset len).1.image.file i ≡ L.contents v.image.file i
  unfolding read_at read_locked
  read_at-contents offset len i = grind (arith, read_sectors-contents)

module _ (B : Backend) (L : IsFile B) (P : Libraries) (v : UnlockedVolume B) (disk : Contents)
    (placed : IsPlaced v) (shows : Shows L P v disk) where
  decrypt_payload :
      (first count : ℕ) (out : List ℕ)
      → 512 * (first + count) ≤ v.len
      → crypt_sectors P decrypt v.key.bytes first
          (slice (L.contents v.image.file) (v.offset + 512 * first) (512 * count))
        ≡ ok out
      → out ≡ slice disk (512 * first) (512 * count)
  decrypt_payload first count out room =
      crypt_sectors-slice P decrypt v.key.bytes (L.contents v.image.file) disk v.offset first count
        (λ j _ q. shows.sectors j (omega arith)) (omega (arith, placed.inside, placed.addressable))
        out

  cut-slice :
      (first count offset len : ℕ) (bytes : List ℕ)
      → 512 * first ≤ offset
      → offset + len ≤ 512 * (first + count)
      → 512 * (first + count) ≤ v.len
      → cut B
          (crypt_sectors P decrypt v.key.bytes first
            (slice (L.contents v.image.file) (v.offset + 512 * first) (512 * count)))
          (offset - 512 * first)
          len
        ≡ ok bytes
      → bytes ≡ slice disk offset len
  cut-slice first count offset len bytes low high room e = by_result _ refl
    where
      window :
          (plain : List ℕ)
          → plain ≡ slice disk (512 * first) (512 * count)
          → take len (drop (offset - 512 * first) plain) ≡ slice disk offset len
      window plain q =
          let skip = offset - 512 * first in
          let at : 512 * first + skip ≡ offset = omega arith in
          rw q (
            ap (take len)
              (drop-slice disk (512 * first) skip (512 * count) (512 * count - skip) (omega arith))
            ∙ take-slice disk (512 * first + skip) len (512 * count - skip) (omega arith)
            ∙ ap (λ p. slice disk p len) at)

      by_result :
          (r : Result (List ℕ))
          → crypt_sectors P decrypt v.key.bytes first
              (slice (L.contents v.image.file) (v.offset + 512 * first) (512 * count))
            ≡ r
          → bytes ≡ slice disk offset len
      by_result (ok plain) q =
          ground (arith, decrypt_payload first count plain room q, window plain)
      by_result (err x) q = absurd (ground arith)

  read_sectors-slice :
      (offset len start size place first count : ℕ) (bytes : List ℕ)
      → start ≡ 512 * first
      → size ≡ 512 * count
      → place ≡ v.offset + 512 * first
      → 512 * first ≤ offset
      → offset + len ≤ 512 * (first + count)
      → 512 * (first + count) ≤ v.len
      → (read_sectors B P v offset len start size place).0 ≡ ok bytes
      → bytes ≡ slice disk offset len
  unfolding read_sectors
  read_sectors-slice offset len start size place first count bytes s n p low high room e =
      by_result _ refl
    where
      number : start / 512 ≡ first
      number = omega arith

      by_result :
          (r : Outcome (List ℕ))
          → (read_exact_at B v.image place size).0 ≡ r
          → bytes ≡ slice disk offset len
      by_result (ok encrypted) q = ground (
        arith,
        number,
        read_exact_at-slice B L v.image place size encrypted q,
        cut-slice first count offset len bytes low high room,
      )
      by_result (err x) q = absurd (ground arith)
      by_result panic q = absurd (ground arith)
      by_result unfinished q = absurd (ground arith)

  -- What a successful read of a volume returns is that part of the disk that it shows, at any
  -- offset and length, if the payload lies in whole sectors inside the image and the backend
  -- behaves as a file.
  pub read_at-slice :
      (offset len : ℕ) (bytes : List ℕ)
      → (read_at B P v offset len).0 ≡ ok bytes
      → bytes ≡ slice disk offset len
  unfolding read_at read_locked out_of_range
  read_at-slice offset len bytes e =
      let start = offset / 512 * 512 in
      let stop = (offset + len + 511) / 512 * 512 in
      ground (
        arith,
        placed.whole,
        read_sectors-slice offset len start (stop - start) (v.offset + start) (offset / 512)
            ((offset + len + 511) / 512 - offset / 512) bytes (omega arith) (omega arith)
            (omega arith) (omega arith),
        empty,
      )
    where
      empty : slice disk offset 0 ≡ []
      empty = unfold slice in refl
