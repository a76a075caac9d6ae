-- ===== src/Volume/Unlocked.antt =====
-- What a volume has when `UnlockedVolume::unlock` of src/volume.rs gives it: a payload inside its
-- image, and no fault.
use winluks.Base.{ℕ, ◌*◌, ◌<◌, ◌≡◌, refl, ◌∙◌, Bool, false, List, not, length, arith}
use winluks.Base.Words.{u64_size}
use winluks.Error.{Result, Outcome, ok, err, panic, unfinished, reject_if-ok, >>=-ok}
use winluks.Error.{unlock_failed}
use winluks.Image.Os.{Backend}
use winluks.Image.{Image, read_exact_at}
use winluks.Image.Access.{read_exact_at-geometry}
use winluks.Crypto.Primitives.{Libraries}
use winluks.Crypto.{VolumeKey, derive, decrypt_sectors, af_merge, new_volume_key, not_key_size}
use winluks.Probe.Fields.{same_bytes}
use winluks.Metadata.{Metadata}
use winluks.Metadata.Digests.{Slot}
use winluks.Metadata.Header
use winluks.Metadata.Header.{Codecs, Header, accept, with_header}
use winluks.Metadata.Placement.{IsInside, from_json-IsInside}
use winluks.Volume.{UnlockedVolume}
use winluks.Volume.Payload.{IsPlaced}
use winluks.Volume.Unlock.{unlock, volume_key, finish, read_area, open_slot, with_metadata}

-- The same handle, but for what reads do to it.
pub record SameImage {B : Backend} (im jm : Image B) : Type 0 where
  pub len : jm.len ≡ im.len
  pub mode : jm.mode ≡ im.mode

SameImage-trans :
    {B : Backend} {im jm km : Image B} → SameImage im jm → SameImage jm km → SameImage im km
SameImage-trans s t = record { len = t.len ∙ s.len; mode = t.mode ∙ s.mode }

-- What `v` has taken over from the metadata and from the image as it was read.
pub record IsOf {B : Backend} (m : Metadata) (im : Image B) (v : UnlockedVolume B) : Type 0 where
  pub offset : v.offset ≡ m.offset
  pub len : v.len ≡ m.length
  pub same : SameImage im v.image
  pub sound : v.poisoned ≡ false
  pub in_order : v.faulted ≡ false
  pub keyed : not_key_size (length v.key.bytes) ≡ false

module _ (codecs : Codecs) (P : Libraries) (B : Backend) where
  header-SameImage :
      (im : Image B) (offset : ℕ) → SameImage im (Header.header codecs P B im offset).1
  unfolding Header.header
  header-SameImage im offset = grind (arith, read_exact_at-geometry)

  with_header-SameImage :
      {A : Type 0} (x : Outcome Header × Image B) (im : Image B)
      → (next : Header → Image B → Outcome A × Image B) → SameImage im x.1
      → ((h : Header) (jm : Image B) → SameImage im jm → SameImage im (next h jm).1)
      → SameImage im (with_header codecs P B x next).1
  with_header-SameImage (ok h, jm) im next e keeps = keeps h jm e
  with_header-SameImage (err x, jm) im next e keeps = e
  with_header-SameImage (panic, jm) im next e keeps = e
  with_header-SameImage (unfinished, jm) im next e keeps = e

  lift-SameImage :
      {A : Type 0} (r : Result A) (im : Image B) → SameImage im (Header.lift codecs P B r im).1
  lift-SameImage (ok a) im = record { len = refl; mode = refl }
  lift-SameImage (err e) im = record { len = refl; mode = refl }

  -- The two continuations of `Metadata::read`.
  abbrev on_second : ℕ → Header → Header → Image B → Outcome Metadata × Image B
  on_second n a b im = Header.lift codecs P B (accept codecs P B a b n) im

  abbrev on_first : ℕ → Header → Image B → Outcome Metadata × Image B
  on_first n a im = with_header codecs P B (Header.header codecs P B im a.size) (on_second n a)

  pub read-SameImage : (im : Image B) → SameImage im (Header.read codecs P B im).1
  unfolding Header.read
  read-SameImage im =
      with_header-SameImage (Header.header codecs P B im 0) im (on_first im.len)
        (header-SameImage im 0)
        (λ a jm e.
          with_header-SameImage (Header.header codecs P B jm a.size) im (on_second im.len a)
            (SameImage-trans e (header-SameImage jm a.size))
            (λ b km f. SameImage-trans f (lift-SameImage (accept codecs P B a b im.len) km)))

  -- A header that was read, and what followed it.
  with_header-ok :
      {A : Type 0} (x : Outcome Header × Image B) (a : A)
      → (next : Header → Image B → Outcome A × Image B) → (with_header codecs P B x next).0 ≡ ok a
      → (h : Header) × ((next h x.1).0 ≡ ok a)
  with_header-ok (ok h, im) a next e = (h, e)
  with_header-ok (err x, im) a next e = absurd (cc)
  with_header-ok (panic, im) a next e = absurd (cc)
  with_header-ok (unfinished, im) a next e = absurd (cc)

  lift-ok :
      {A : Type 0} (r : Result A) (im : Image B) (a : A)
      → (Header.lift codecs P B r im).0 ≡ ok a
      → r ≡ ok a
  lift-ok (ok b) im a e = ground arith
  lift-ok (err x) im a e = absurd (cc)

  accept-IsInside :
      (a b : Header) (image_len : ℕ) (m : Metadata)
      → accept codecs P B a b image_len ≡ ok m
      → IsInside (a.size * 2) image_len m.offset m.length
  unfolding accept
  accept-IsInside a b image_len m e =
      from_json-IsInside codecs.decode64 a.json a.size image_len m (reject_if-ok _ _ _ e).1

  read-IsInside :
      (im : Image B) (m : Metadata)
      → (Header.read codecs P B im).0 ≡ ok m
      → (size : ℕ) × IsInside (size * 2) im.len m.offset m.length
  unfolding Header.read
  read-IsInside im m e =
      let first = with_header-ok (Header.header codecs P B im 0) m (on_first im.len) e in
      let jm = (Header.header codecs P B im 0).1 in
      let x = Header.header codecs P B jm first.0.size in
      let second = with_header-ok x m (on_second im.len first.0) first.1 in
      (
        first.0.size,
        accept-IsInside first.0 second.0 im.len m
            (lift-ok (accept codecs P B first.0 second.0 im.len) x.1 m second.1),
      )

  volume_key-size :
      (s : Slot) (derived encrypted : List ℕ) (allocated locked : Bool) (key : VolumeKey)
      → volume_key codecs P allocated locked s derived encrypted ≡ ok key
      → not_key_size (length key.bytes) ≡ false
  unfolding volume_key new_volume_key
  volume_key-size s derived encrypted allocated locked key e =
      let af = >>=-ok (decrypt_sectors P derived 0 encrypted) _ e in
      let merged = >>=-ok (af_merge P s.af_hash af.0 s.key_size) _ af.2 in
      let digest = >>=-ok (derive P s.digest_kdf merged.0 (length s.digest)) _ merged.2 in
      let same = reject_if-ok (not (same_bytes digest.0 s.digest)) unlock_failed _ digest.2 in
      ground (arith, same.1)

  module _ (allocated locked : Bool) (v : UnlockedVolume B) where
    finish-IsOf :
        (m : Metadata) (key : Result VolumeKey) (im : Image B)
        → ((k : VolumeKey) → key ≡ ok k → not_key_size (length k.bytes) ≡ false)
        → finish codecs P B allocated locked m key im ≡ ok v
        → IsOf m im v
    finish-IsOf m (ok key) im sized e = record {
      offset = ground arith;
      len = ground arith;
      same = record { len = ground arith; mode = ground arith };
      sound = ground arith;
      in_order = ground arith;
      keyed = ground (arith, sized key refl);
    }
    finish-IsOf m (err x) im sized e = absurd (cc)

    read_area-IsOf :
        (m : Metadata) (s : Slot) (derived : List ℕ) (x : Outcome (List ℕ) × Image B)
        → read_area codecs P B allocated locked m s derived x ≡ ok v
        → IsOf m x.1 v
    read_area-IsOf m s derived (ok encrypted, im) e =
        finish-IsOf m (volume_key codecs P allocated locked s derived encrypted) im
          (λ k q. volume_key-size s derived encrypted allocated locked k q) e
    read_area-IsOf m s derived (err x, im) e = absurd (cc)
    read_area-IsOf m s derived (panic, im) e = absurd (cc)
    read_area-IsOf m s derived (unfinished, im) e = absurd (cc)

    open_slot-IsOf :
        (m : Metadata) (r : Result (Slot × List ℕ)) (im : Image B)
        → open_slot codecs P B allocated locked m r im ≡ ok v
        → IsOf m im v
    open_slot-IsOf m (ok (s, derived)) im e =
        let area = read_exact_at B im s.area_offset (s.key_size * 4000) in
        let h = read_area-IsOf m s derived area e in
        let same = read_exact_at-geometry B im s.area_offset (s.key_size * 4000) in
        record {
          offset = h.offset;
          len = h.len;
          same = record { len = h.same.len ∙ same.0; mode = h.same.mode ∙ same.1 };
          sound = h.sound;
          in_order = h.in_order;
          keyed = h.keyed;
        }
    open_slot-IsOf m (err x) im e = absurd (cc)

    with_metadata-IsOf :
        (keyslot : ℕ) (password : List ℕ) (x : Outcome Metadata × Image B)
        → with_metadata codecs P B allocated locked keyslot password x ≡ ok v
        → (m : Metadata) × (x.0 ≡ ok m) × IsOf m x.1 v
    with_metadata-IsOf keyslot password (ok m, im) e = (m, refl, open_slot-IsOf m _ im e)
    with_metadata-IsOf keyslot password (err x, im) e = absurd (cc)
    with_metadata-IsOf keyslot password (panic, im) e = absurd (cc)
    with_metadata-IsOf keyslot password (unfinished, im) e = absurd (cc)

    -- A volume that is unlocked from an image of a 64-bit length has its payload in whole sectors
    -- inside that image.
    pub unlock-IsPlaced :
        (im : Image B) (keyslot : ℕ) (password : List ℕ)
        → im.len < u64_size
        → unlock codecs P B allocated locked im keyslot password ≡ ok v
        → IsPlaced v
    unfolding unlock
    unlock-IsPlaced im keyslot password fits e =
        let of = with_metadata-IsOf keyslot password (Header.read codecs P B im) e in
        let inside = (read-IsInside im of.0 of.1).1 in
        let o = of.2.offset in
        let n = of.2.len in
        let whole_len = of.2.same.len ∙ (read-SameImage im).len in
        record {
          whole = omega (arith, n, inside.whole);
          inside = omega (arith, o, n, whole_len, inside.inside);
          addressable = omega (arith, whole_len, fits);
        }

    -- It starts in order, in the mode of the image.
    pub unlock_fresh :
        (im : Image B) (keyslot : ℕ) (password : List ℕ)
        → unlock codecs P B allocated locked im keyslot password ≡ ok v
        → (v.poisoned ≡ false)
          × (v.faulted ≡ false)
          × (v.image.mode ≡ im.mode)
          × (not_key_size (length v.key.bytes) ≡ false)
    unfolding unlock
    unlock_fresh im keyslot password e =
        let of = with_metadata-IsOf keyslot password (Header.read codecs P B im) e in
        (of.2.sound, of.2.in_order, of.2.same.mode ∙ (read-SameImage im).mode, of.2.keyed)
