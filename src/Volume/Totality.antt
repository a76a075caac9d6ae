-- ===== src/Volume/Totality.antt =====
-- The operations of src/volume.rs end, and panic only if a call of the backend does.
use winluks.Base.{ℕ, ◌+◌, ◌-◌, ◌*◌, ◌/◌, ◌≤◌, ◌≡◌, ◌≢◌, refl, ap, ◌∙◌, List, arith, length}
use winluks.Base.Contents.{length-slice}
use winluks.Error.{Result, Outcome, ok, err, panic, unfinished}
use winluks.Image.Os.{Backend, IsFile, IsPatient, IsCalm}
use winluks.Image.{read_exact_at, write_all_at}
use winluks.Image.Access.{
  read_exact_at-ne-unfinished, write_all_at-ne-unfinished, sync-ne-unfinished,
}
use winluks.Image.Access.{read_exact_at-ne-panic, write_all_at-ne-panic, sync-ne-panic}
use winluks.Image.Access.{read_exact_at-slice}
use winluks.Crypto.Primitives.{Libraries, decrypt}
use winluks.Crypto.{crypt_sectors}
use winluks.Crypto.Sectors.{length-crypt_sectors}
use winluks.Volume.{
  UnlockedVolume, read_at, read_locked, read_sectors, write_at, write_locked, store,
}
use winluks.Volume.{flush, flush_locked, cut}

module _ (B : Backend) (patient : IsPatient B) (P : Libraries) (v : UnlockedVolume B) where
  read_sectors-ne-unfinished :
      (offset len start size place : ℕ)
      → (read_sectors B P v offset len start size place).0 ≢ unfinished
  unfolding read_sectors
  read_sectors-ne-unfinished offset len start size place =
      ground (arith, read_exact_at-ne-unfinished B patient v.image place size)

  -- Reads end: the retries after interruptions do not run out of fuel.
  pub read_at-ne-unfinished : (offset len : ℕ) → (read_at B P v offset len).0 ≢ unfinished
  unfolding read_at read_locked
  read_at-ne-unfinished offset len = grind (arith, read_sectors-ne-unfinished)

  store-ne-unfinished :
      (target : ℕ) (encrypted : List ℕ) → (store B P v target encrypted).0 ≢ unfinished
  unfolding store
  store-ne-unfinished target encrypted = ground (
    arith,
    write_all_at-ne-unfinished B patient v.image target encrypted,
    sync-ne-unfinished B (write_all_at B v.image target encrypted).1,
  )

  -- A write of a volume ends: its retries do not run out of fuel, if the interruptions of the
  -- backend end.
  pub write_at-ne-unfinished :
      (offset : ℕ) (plaintext : List ℕ) → (write_at B P v offset plaintext).0 ≢ unfinished
  unfolding write_at write_locked
  write_at-ne-unfinished offset plaintext = grind (arith, store-ne-unfinished)

module _ (B : Backend) (calm : IsCalm B) (P : Libraries) (v : UnlockedVolume B) where
  store-ne-panic : (target : ℕ) (encrypted : List ℕ) → (store B P v target encrypted).0 ≢ panic
  unfolding store
  store-ne-panic target encrypted = ground (
    arith,
    write_all_at-ne-panic B calm v.image target encrypted,
    sync-ne-panic B calm (write_all_at B v.image target encrypted).1,
  )

  pub write_at-ne-panic :
      (offset : ℕ) (plaintext : List ℕ) → (write_at B P v offset plaintext).0 ≢ panic
  unfolding write_at write_locked
  write_at-ne-panic offset plaintext = grind (arith, store-ne-panic)

  pub flush-ne-panic : (flush B v).0 ≢ panic
  unfolding flush flush_locked
  flush-ne-panic = ground (arith, sync-ne-panic B calm v.image)

module _ (B : Backend) (L : IsFile B) (calm : IsCalm B) (P : Libraries) (v : UnlockedVolume B) where
  read_sectors-ne-panic :
      (offset len start size place : ℕ)
      → offset - start + len ≤ size
      → (read_sectors B P v offset len start size place).0 ≢ panic
  unfolding read_sectors
  read_sectors-ne-panic offset len start size place room e = by_result _ refl
    where
      by_plain :
          (encrypted : List ℕ)
          → length encrypted ≡ size
          → (r : Result (List ℕ)) → crypt_sectors P decrypt v.key.bytes (start / 512) encrypted ≡ r
          → cut B r (offset - start) len ≢ panic
      by_plain encrypted n (ok plain) q =
          ground (arith, length-crypt_sectors P v.key.bytes (start / 512) decrypt encrypted plain q)
      by_plain encrypted n (err x) q = ground arith

      by_result : (r : Outcome (List ℕ)) → (read_exact_at B v.image place size).0 ≡ r → ⊥
      by_result (ok encrypted) q =
          let n : length encrypted ≡ size =
            ap length (read_exact_at-slice B L v.image place size encrypted q)
            ∙ length-slice (L.contents v.image.file) place size in
          ground (
            arith,
            by_plain encrypted n (crypt_sectors P decrypt v.key.bytes (start / 512) encrypted) refl,
          )
      by_result panic q = absurd (read_exact_at-ne-panic B calm v.image place size q)
      by_result (err x) q = ground arith
      by_result unfinished q = ground arith

  -- A read of a volume does not panic, so the slice that it takes of the decrypted sectors is in
  -- their bounds, if no call of the backend panics and it behaves as a file.
  pub read_at-ne-panic : (offset len : ℕ) → (read_at B P v offset len).0 ≢ panic
  unfolding read_at read_locked
  read_at-ne-panic offset len =
      let start = offset / 512 * 512 in
      let stop = (offset + len + 511) / 512 * 512 in
      ground (
        arith,
        read_sectors-ne-panic offset len start (stop - start) (v.offset + start) (omega arith),
      )
