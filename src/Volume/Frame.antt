-- ===== src/Volume/Frame.antt =====
-- What the operations of src/volume.rs leave alone.
use winluks.Base.{ℕ, ◌≡◌, refl, ◌∙◌, List, arith}
use winluks.Image.Os.{Backend}
use winluks.Image.Access.{write_all_at-geometry, read_exact_at-geometry, sync-geometry}
use winluks.Crypto.Primitives.{Libraries}
use winluks.Volume.{
  UnlockedVolume, read_at, read_locked, read_sectors, write_at, write_locked, store, flush,
  flush_locked,
}

-- Everything of a volume that stays as it is for the whole session.
pub record SameSession {B : Backend} (v w : UnlockedVolume B) : Type 0 where
  pub image_len : w.image.len ≡ v.image.len
  pub mode : w.image.mode ≡ v.image.mode
  pub offset : w.offset ≡ v.offset
  pub len : w.len ≡ v.len
  pub key : w.key ≡ v.key

pub SameSession-refl : {B : Backend} (v : UnlockedVolume B) → SameSession v v
SameSession-refl v = record { image_len = refl; mode = refl; offset = refl; len = refl; key = refl }

pub SameSession-trans :
    {B : Backend} {v w u : UnlockedVolume B} → SameSession v w → SameSession w u → SameSession v u
SameSession-trans s t = record {
  image_len = t.image_len ∙ s.image_len;
  mode = t.mode ∙ s.mode;
  offset = t.offset ∙ s.offset;
  len = t.len ∙ s.len;
  key = t.key ∙ s.key;
}

module _ (B : Backend) (P : Libraries) (v : UnlockedVolume B) where
  read_sectors-SameSession :
      (offset len start size place : ℕ)
      → SameSession v (read_sectors B P v offset len start size place).1
  unfolding read_sectors
  read_sectors-SameSession offset len start size place =
      ground (arith, read_exact_at-geometry B v.image place size)

  pub read_at-SameSession : (offset len : ℕ) → SameSession v (read_at B P v offset len).1
  unfolding read_at read_locked
  read_at-SameSession offset len = grind (arith, read_sectors-SameSession)

  store-SameSession :
      (target : ℕ) (encrypted : List ℕ) → SameSession v (store B P v target encrypted).1
  unfolding store
  store-SameSession target encrypted = grind (arith, write_all_at-geometry, sync-geometry)

  pub write_at-SameSession :
      (offset : ℕ) (plaintext : List ℕ) → SameSession v (write_at B P v offset plaintext).1
  unfolding write_at write_locked
  write_at-SameSession offset plaintext = grind (arith, store-SameSession)

  pub flush-SameSession : SameSession v (flush B v).1
  unfolding flush flush_locked
  flush-SameSession = ground (arith, sync-geometry B v.image)
