-- ===== src/Volume/Payload.antt =====
-- The disk that a volume of src/volume.rs shows: the plaintext behind the sectors of its payload.
use winluks.Base.{ℕ, ◌+◌, ◌*◌, ◌%◌, ◌≤◌, ◌<◌, ◌≡◌, some, arith}
use winluks.Base.Contents.{Contents, slice, slice-ext}
use winluks.Base.Words.{u64_size}
use winluks.Image.Os.{Backend, IsFile}
use winluks.Crypto.Primitives.{decrypt, Libraries}
use winluks.Crypto.{sector_iv}
use winluks.Volume.{UnlockedVolume}
use winluks.Volume.Frame.{SameSession}

-- The payload lies in the image, in whole sectors.
pub record IsPlaced {B : Backend} (v : UnlockedVolume B) : Type 0 where
  pub whole : v.len % 512 ≡ 0
  pub inside : v.offset + v.len ≤ v.image.len
  pub addressable : v.image.len < u64_size

-- Each sector of the payload decrypts to that sector of `disk`, under the IV of its number.
pub record Shows {B : Backend} (L : IsFile B) (P : Libraries) (v : UnlockedVolume B)
    (disk : Contents) : Type 0 where
  pub sectors :
      (j : ℕ)
      → 512 * j < v.len
      → P.xts decrypt v.key.bytes
          (sector_iv j)
          (slice (L.contents v.image.file) (v.offset + 512 * j) 512)
        ≡ some (slice disk (512 * j) 512)

module _ (B : Backend) where
  -- Whatever keeps the session keeps the payload in its place.
  pub IsPlaced-SameSession : (v w : UnlockedVolume B) → SameSession v w → IsPlaced v → IsPlaced w
  IsPlaced-SameSession v w s p = record {
    whole = omega (arith, s.len, p.whole);
    inside = omega (arith, s.image_len, s.offset, s.len, p.inside);
    addressable = omega (arith, s.image_len, p.addressable);
  }

module _ (B : Backend) (L : IsFile B) where
  -- Reads and flushes keep the disk that a volume shows.
  pub Shows-same :
      (P : Libraries) (disk : Contents) (v w : UnlockedVolume B)
      → SameSession v w
      → ((i : ℕ) → L.contents w.image.file i ≡ L.contents v.image.file i)
      → Shows L P v disk
      → Shows L P w disk
  Shows-same P disk v w s same shows = record {
    sectors = λ j within.
        rw (s.key, s.offset)
          (rw (slice-ext _ _ (v.offset + 512 * j) 512 (λ i _ _. same i))
            (shows.sectors j (omega (arith, s.len))));
  }
