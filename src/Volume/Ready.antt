-- ===== src/Volume/Ready.antt =====
-- The state of a volume that `validate` of src/volume.rs has read and accepted.
use winluks.Base.{ℕ, ◌≡◌, refl, ◌∙◌, false, List, arith}
use winluks.Base.Contents.{Contents}
use winluks.Error.{ok}
use winluks.Image.Os.{Backend, IsFile}
use winluks.Crypto.Primitives.{Libraries}
use winluks.Probe
use winluks.Probe.{Filesystem}
use winluks.Probe.Keeps.{check_keeps}
use winluks.Volume.{UnlockedVolume, ValidatedVolume, validate, read_at, read_locked, read_sectors}
use winluks.Volume.Payload.{IsPlaced, Shows, IsPlaced-SameSession, Shows-same}
use winluks.Volume.Frame.{SameSession, SameSession-refl, SameSession-trans, read_at-SameSession}
use winluks.Volume.Sizes.{read_at-size}
use winluks.Volume.Reads.{read_at-contents}

module _ (B : Backend) (L : IsFile B) (P : Libraries) (disk : Contents) (v : UnlockedVolume B) where
  -- A volume that shows the disk, in order, in the mode of `v`.
  pub record IsReady (w : UnlockedVolume B) : Type 0 where
    pub placed : IsPlaced w
    pub shows : Shows L P w disk
    pub sound : w.poisoned ≡ false
    pub same_mode : w.image.mode ≡ v.image.mode
    pub session : SameSession v w
    pub kept : (i : ℕ) → L.contents w.image.file i ≡ L.contents v.image.file i
    pub file_size : L.size w.image.file ≡ L.size v.image.file

  read_sectors-poisoned :
      (w : UnlockedVolume B) (offset len start size place : ℕ)
      → (read_sectors B P w offset len start size place).1.poisoned ≡ w.poisoned
  unfolding read_sectors
  read_sectors-poisoned w offset len start size place = ground arith

  read_at_sound :
      (w : UnlockedVolume B) (offset len : ℕ) (bytes : List ℕ)
      → w.poisoned ≡ false
      → (read_at B P w offset len).0 ≡ ok bytes
      → (read_at B P w offset len).1.poisoned ≡ false
  unfolding read_at read_locked
  read_at_sound w offset len bytes sound e = grind (arith, read_sectors-poisoned)

  read_at-IsReady :
      (w : UnlockedVolume B) (offset len : ℕ) (bytes : List ℕ)
      → IsReady w
      → (read_at B P w offset len).0 ≡ ok bytes
      → IsReady (read_at B P w offset len).1
  read_at-IsReady w offset len bytes r e =
      let s = read_at-SameSession B P w offset len in
      record {
        placed = IsPlaced-SameSession B w _ s r.placed;
        shows = Shows-same B L P disk w _ s (read_at-contents B L P w offset len) r.shows;
        sound = read_at_sound w offset len bytes r.sound e;
        same_mode = s.mode ∙ r.same_mode;
        session = SameSession-trans r.session s;
        kept = λ i. read_at-contents B L P w offset len i ∙ r.kept i;
        file_size = read_at-size B L P w offset len ∙ r.file_size;
      }

  pub validate_cases :
      (crc32c : List ℕ → ℕ) (fs : Filesystem) (valid : ValidatedVolume B)
      → (validate B P crc32c v fs).0 ≡ ok valid
      → ((Probe.check crc32c (read_at B P) v.len fs v).0 ≡ ok tt)
        × (valid.volume ≡ (Probe.check crc32c (read_at B P) v.len fs v).1)
        × (valid.filesystem ≡ fs)
  unfolding validate
  validate_cases crc32c fs valid e = ground arith

  -- A volume that shows a disk and is accepted still shows it, in order, in the mode of before.
  pub validate-IsReady :
      (crc32c : List ℕ → ℕ) (fs : Filesystem) (valid : ValidatedVolume B)
      → IsPlaced v
      → Shows L P v disk
      → v.poisoned ≡ false
      → (validate B P crc32c v fs).0 ≡ ok valid
      → IsReady valid.volume × (valid.filesystem ≡ fs)
  validate-IsReady crc32c fs valid placed shows sound e =
      let c = validate_cases crc32c fs valid e in
      (
        rw c.1 (
            check_keeps crc32c (read_at B P) v.len IsReady read_at-IsReady fs v
              (record {
                placed = placed;
                shows = shows;
                sound = sound;
                same_mode = refl;
                session = SameSession-refl v;
                kept = λ i. refl;
                file_size = refl;
              })
              c.0),
        c.2,
      )
