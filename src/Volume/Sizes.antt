-- ===== src/Volume/Sizes.antt =====
-- The operations of src/volume.rs keep the length of the image's file.
use winluks.Base.{ℕ, ◌≡◌, List, arith}
use winluks.Image.Os.{Backend, IsFile}
use winluks.Image.Access.{write_all_at-size, read_exact_at-size, sync-size}
use winluks.Image.{write_all_at}
use winluks.Crypto.Primitives.{Libraries}
use winluks.Volume.{
  UnlockedVolume, read_at, read_locked, read_sectors, write_at, write_locked, store, flush,
  flush_locked,
}

module _ (B : Backend) (L : IsFile B) (P : Libraries) (v : UnlockedVolume B) where
  abbrev file_size : UnlockedVolume B → ℕ
  file_size w = L.size w.image.file

  read_sectors-size :
      (offset len start size place : ℕ)
      → file_size (read_sectors B P v offset len start size place).1 ≡ file_size v
  unfolding read_sectors
  read_sectors-size offset len start size place =
      ground (arith, read_exact_at-size B L v.image place size)

  pub read_at-size : (offset len : ℕ) → file_size (read_at B P v offset len).1 ≡ file_size v
  unfolding read_at read_locked
  read_at-size offset len = grind (arith, read_sectors-size)

  store-size :
      (target : ℕ) (encrypted : List ℕ) → file_size (store B P v target encrypted).1 ≡ file_size v
  unfolding store
  store-size target encrypted =
      let im = (write_all_at B v.image target encrypted).1 in
      ground (arith, write_all_at-size B L v.image target encrypted, sync-size B L im)

  pub write_at-size :
      (offset : ℕ) (plaintext : List ℕ)
      → file_size (write_at B P v offset plaintext).1 ≡ file_size v
  unfolding write_at write_locked
  write_at-size offset plaintext = grind (arith, store-size)

  pub flush-size : file_size (flush B v).1 ≡ file_size v
  unfolding flush flush_locked
  flush-size = ground (arith, sync-size B L v.image)
