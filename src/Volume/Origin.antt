-- ===== src/Volume/Origin.antt =====
-- Where an unlocked volume of src/volume.rs comes from: the metadata in the image, and its bytes.
use winluks.Base.{ℕ, ◌*◌, ◌≡◌, refl, ◌∙◌, Bool, false, List, arith}
use winluks.Error.{Result, Outcome, ok, err, panic, unfinished}
use winluks.Image.Os.{Backend, IsFile}
use winluks.Image.{Image, read_exact_at}
use winluks.Image.Access.{read_exact_at-contents, read_exact_at-geometry, read_exact_at-size}
use winluks.Crypto.Primitives.{Libraries}
use winluks.Crypto.{VolumeKey}
use winluks.Metadata.{Metadata}
use winluks.Metadata.Digests.{Slot}
use winluks.Metadata.Header
use winluks.Metadata.Header.{Codecs}
use winluks.Metadata.Origin.{metadata_of, read-IsRead}
use winluks.Volume.{UnlockedVolume}
use winluks.Volume.Unlock.{unlock, finish, read_area, open_slot, with_metadata, volume_key}

module _ (codecs : Codecs) (P : Libraries) {B : Backend} (L : IsFile B) (allocated locked : Bool)
    (v : UnlockedVolume B) where
  -- The place of the payload, from the metadata, over the bytes of the image.
  pub record IsFrom (m : Metadata) (im : Image B) : Type 0 where
    pub offset : v.offset ≡ m.offset
    pub len : v.len ≡ m.length
    pub kept : (i : ℕ) → L.contents v.image.file i ≡ L.contents im.file i
    pub image_len : v.image.len ≡ im.len
    pub file_size : L.size v.image.file ≡ L.size im.file

  finish-IsFrom :
      (m : Metadata) (key : Result VolumeKey) (im : Image B)
      → finish codecs P B allocated locked m key im ≡ ok v
      → IsFrom m im
  finish-IsFrom m (ok key) im e = by_made (ground arith)
    where
      made : UnlockedVolume B
      made = record {
        image = im;
        offset = m.offset;
        len = m.length;
        key = key;
        poisoned = false;
        faulted = false;
      }

      by_made : made ≡ v → IsFrom m im
      by_made q = record {
        offset = ground arith;
        len = ground arith;
        kept = λ i. rw (← q) refl;
        image_len = ground arith;
        file_size = rw (← q) refl;
      }
  finish-IsFrom m (err x) im e = absurd (cc)

  read_area-IsFrom :
      (m : Metadata) (s : Slot) (derived : List ℕ) (x : Outcome (List ℕ) × Image B)
      → read_area codecs P B allocated locked m s derived x ≡ ok v
      → IsFrom m x.1
  read_area-IsFrom m s derived (ok encrypted, im) e =
      finish-IsFrom m (volume_key codecs P allocated locked s derived encrypted) im e
  read_area-IsFrom m s derived (err x, im) e = absurd (cc)
  read_area-IsFrom m s derived (panic, im) e = absurd (cc)
  read_area-IsFrom m s derived (unfinished, im) e = absurd (cc)

  open_slot-IsFrom :
      (m : Metadata) (r : Result (Slot × List ℕ)) (im : Image B)
      → open_slot codecs P B allocated locked m r im ≡ ok v
      → IsFrom m im
  open_slot-IsFrom m (ok (s, derived)) im e =
      let h =
        read_area-IsFrom m s derived (read_exact_at B im s.area_offset (s.key_size * 4000)) e in
      record {
        offset = h.offset;
        len = h.len;
        kept = λ i. h.kept i ∙ read_exact_at-contents B L im s.area_offset (s.key_size * 4000) i;
        image_len = h.image_len ∙ (read_exact_at-geometry B im s.area_offset (s.key_size * 4000)).0;
        file_size = h.file_size ∙ read_exact_at-size B L im s.area_offset (s.key_size * 4000);
      }
  open_slot-IsFrom m (err x) im e = absurd (cc)

  with_metadata-IsFrom :
      (keyslot : ℕ) (password : List ℕ) (x : Outcome Metadata × Image B)
      → with_metadata codecs P B allocated locked keyslot password x ≡ ok v
      → (m : Metadata) × (x.0 ≡ ok m) × IsFrom m x.1
  with_metadata-IsFrom keyslot password (ok m, im) e = (m, refl, open_slot-IsFrom m _ im e)
  with_metadata-IsFrom keyslot password (err x, im) e = absurd (cc)
  with_metadata-IsFrom keyslot password (panic, im) e = absurd (cc)
  with_metadata-IsFrom keyslot password (unfinished, im) e = absurd (cc)

  -- A volume that is unlocked takes the place of its payload from the metadata that the bytes and
  -- the length of the image alone determine, and leaves these bytes and the length as they were,
  -- if the backend behaves as a file.
  pub unlock-IsFrom :
      (im : Image B) (keyslot : ℕ) (password : List ℕ)
      → unlock codecs P B allocated locked im keyslot password ≡ ok v
      → (m : Metadata) × (metadata_of codecs P B (L.contents im.file) im.len ≡ ok m) × IsFrom m im
  unfolding unlock
  unlock-IsFrom im keyslot password e =
      let of = with_metadata-IsFrom keyslot password (Header.read codecs P B im) e in
      let r = read-IsRead codecs P L im in
      (
        of.0,
        r.found of.0 of.1,
        record {
          offset = of.2.offset;
          len = of.2.len;
          kept = λ i. of.2.kept i ∙ r.kept i;
          image_len = of.2.image_len ∙ r.len;
          file_size = of.2.file_size ∙ r.file_size;
        },
      )
