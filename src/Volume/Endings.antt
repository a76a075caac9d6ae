-- ===== src/Volume/Endings.antt =====
-- The loops of the unlocking and the validation in src/volume.rs never run out of fuel.
use winluks.Base.{ℕ, ◌≢◌, Bool, List, [], ◌∷◌, arith}
use winluks.Error.{Outcome, unfinished}
use winluks.Image.Os.{Backend, IsPatient}
use winluks.Image.{Image}
use winluks.Image.Access.{read_exact_at-ne-unfinished}
use winluks.Crypto.Primitives.{Libraries}
use winluks.Probe.{Filesystem, check, mirror_loop}
use winluks.Metadata.Header
use winluks.Metadata.Header.{Codecs, Header, lift, accept, with_header}
use winluks.Volume.{UnlockedVolume, validate, read_at}
use winluks.Volume.Unlock.{unlock}
use winluks.Volume.Totality.{read_at-ne-unfinished}

module _ {S : Type 0} (crc32c : List ℕ → ℕ) (read : S → ℕ → ℕ → Outcome (List ℕ) × S) (len : ℕ)
    (read-ends : (s : S) (o n : ℕ) → (read s o n).0 ≢ unfinished) where
  mirror_loop-ne-unfinished :
      (primary : List ℕ) (offsets : List ℕ) (s : S)
      → (mirror_loop crc32c read len primary offsets s).0 ≢ unfinished
  unfolding mirror_loop
  mirror_loop-ne-unfinished primary [] s = λ e. cc
  mirror_loop-ne-unfinished primary (o ∷ os) s =
      grind (arith, read-ends, mirror_loop-ne-unfinished primary os)

  check-ne-unfinished : (fs : Filesystem) (s : S) → (check crc32c read len fs s).0 ≢ unfinished
  unfolding check
  check-ne-unfinished Filesystem.ext4 s = grind (arith, read-ends)
  check-ne-unfinished Filesystem.btrfs s = grind (arith, read-ends, mirror_loop-ne-unfinished)

module _ (codecs : Codecs) (P : Libraries) (B : Backend) (patient : IsPatient B) where
  header-ne-unfinished :
      (im : Image B) (offset : ℕ) → (Header.header codecs P B im offset).0 ≢ unfinished
  unfolding Header.header
  header-ne-unfinished im offset = grind (arith, read_exact_at-ne-unfinished B patient)

  pub read-ne-unfinished : (im : Image B) → (Header.read codecs P B im).0 ≢ unfinished
  unfolding Header.read
  read-ne-unfinished im = grind (arith, header-ne-unfinished)

  pub unlock-ne-unfinished :
      (allocated locked : Bool) (im : Image B) (keyslot : ℕ) (password : List ℕ)
      → unlock codecs P B allocated locked im keyslot password ≢ unfinished
  unfolding unlock
  unlock-ne-unfinished allocated locked im keyslot password =
      grind (arith, read-ne-unfinished, read_exact_at-ne-unfinished B patient)

  pub validate-ne-unfinished :
      (crc32c : List ℕ → ℕ) (v : UnlockedVolume B) (fs : Filesystem)
      → (validate B P crc32c v fs).0 ≢ unfinished
  unfolding validate
  validate-ne-unfinished crc32c v fs = ground (
    arith,
    check-ne-unfinished crc32c (read_at B P) v.len
        (λ w o n. read_at-ne-unfinished B patient P w o n) fs v,
  )
