-- ===== src/Oracles/Ro/Intact.antt =====
-- A volume that examples/oracle.rs reads: read-only, and in order as long as no read panics.
use winluks.Base.{ℕ, ◌+◌, ◌≤◌, ◌<◌, ◌≡◌, ◌≢◌, ◌∙◌, sym, false, List, arith}
use winluks.Base.Contents.{Contents, slice}
use winluks.Error.{ok, err, panic, invalid_range}
use winluks.Image.Os.{Backend, IsFile}
use winluks.Image.{AccessMode}
use winluks.Crypto.Primitives.{Libraries}
use winluks.Probe.{Filesystem}
use winluks.Probe.Keeps.{check_keeps}
use winluks.Volume.{
  UnlockedVolume, ValidatedVolume, validate, read_at, read_locked, read_sectors, out_of_range,
}
use winluks.Volume.Payload.{IsPlaced, Shows, IsPlaced-SameSession, Shows-same}
use winluks.Volume.Frame.{read_at-SameSession}
use winluks.Volume.Faults.{read_at_read_only}
use winluks.Volume.Reads.{read_at-contents, read_at-slice}
use winluks.Volume.Sizes.{read_at-size}
use winluks.Volume.Ready.{validate_cases}

module _ {B : Backend} (L : IsFile B) (P : Libraries) (disk : Contents) (len : ℕ) where
  pub record IsIntact (w : UnlockedVolume B) : Type 0 where
    pub placed : IsPlaced w
    pub shows : Shows L P w disk
    pub sound : w.poisoned ≡ false
    pub in_order : w.faulted ≡ false
    pub read_only : w.image.mode ≡ AccessMode.read_only
    pub same_len : w.len ≡ len
    pub sized : w.image.len ≡ L.size w.image.file

  module _ (w : UnlockedVolume B) (i : IsIntact w) where
    read_sectors-poisoned :
        (offset n start size place : ℕ)
        → (read_sectors B P w offset n start size place).1.poisoned ≡ w.poisoned
    unfolding read_sectors
    read_sectors-poisoned offset n start size place = ground arith

    read_at_sound :
        (offset n : ℕ)
        → (read_at B P w offset n).0 ≢ panic
        → (read_at B P w offset n).1.poisoned ≡ false
    unfolding read_at read_locked
    read_at_sound offset n calm = grind (arith, read_sectors-poisoned, i.sound)

    pub read_at-IsIntact :
        (offset n : ℕ) → (read_at B P w offset n).0 ≢ panic → IsIntact (read_at B P w offset n).1
    read_at-IsIntact offset n calm =
        let s = read_at-SameSession B P w offset n in
        record {
          placed = IsPlaced-SameSession B w _ s i.placed;
          shows = Shows-same B L P disk w _ s (read_at-contents B L P w offset n) i.shows;
          sound = read_at_sound offset n calm;
          in_order = read_at_read_only B P w offset n i.read_only i.sound ∙ i.in_order;
          read_only = s.mode ∙ i.read_only;
          same_len = s.len ∙ i.same_len;
          sized = s.image_len ∙ i.sized ∙ sym (read_at-size B L P w offset n);
        }

    pub read_at_shown :
        (offset n : ℕ) (bytes : List ℕ)
        → (read_at B P w offset n).0 ≡ ok bytes
        → bytes ≡ slice disk offset n
    read_at_shown = read_at-slice B L P w disk i.placed i.shows

    -- A read that goes over the end is refused.
    pub read_at_outside :
        (offset n : ℕ) → w.len < offset + n → (read_at B P w offset n).0 ≡ err invalid_range
    unfolding read_at read_locked out_of_range
    read_at_outside offset n over = ground (arith, i.sound, i.in_order)

    pub read_at_inside :
        (offset n : ℕ) (bytes : List ℕ) → (read_at B P w offset n).0 ≡ ok bytes → offset + n ≤ w.len
    unfolding read_at read_locked out_of_range
    read_at_inside offset n bytes e = ground arith

  pub validate-IsIntact :
      (crc32c : List ℕ → ℕ) (v : UnlockedVolume B) (fs : Filesystem) (valid : ValidatedVolume B)
      → IsIntact v
      → (validate B P crc32c v fs).0 ≡ ok valid
      → IsIntact valid.volume
  validate-IsIntact crc32c v fs valid i e =
      let c = validate_cases B L P disk v crc32c fs valid e in
      rw c.1 (
        check_keeps crc32c (read_at B P) v.len IsIntact
          (λ w o n bytes k q. read_at-IsIntact w k o n (λ p. cc (p, q))) fs v i c.0)
