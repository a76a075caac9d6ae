-- ===== src/Volume/Unlock.antt =====
-- `UnlockedVolume::unlock` of src/volume.rs, from the metadata of the image to the volume key.
use winluks.Base.{ℕ, ◌*◌, Bool, true, false, List, not, ltb, Option, none, some, length}
use winluks.Error.{Result, Outcome, ok, err, panic, unfinished, ◌>>=◌, ◌>>◌, reject_if}
use winluks.Error.{resource_limit, unlock_failed}
use winluks.Image.Os.{Backend}
use winluks.Image.{Image, read_exact_at}
use winluks.Crypto.Primitives.{Libraries}
use winluks.Crypto.{VolumeKey, derive, decrypt_sectors, af_merge, new_volume_key}
use winluks.Probe.Fields.{same_bytes}
use winluks.Metadata.{Metadata, slot}
use winluks.Metadata.Digests.{Slot}
use winluks.Metadata.Header
use winluks.Metadata.Header.{Codecs, Header, accept, with_header}
use winluks.Volume.{UnlockedVolume}

-- `is_some`
abbrev is_text : Option (Prim.Native.String.String) → Bool
is_text none = false
is_text (some _) = true

module _ (codecs : Codecs) (P : Libraries) where
  -- The password, up to the key of the keyslot's area.
  unfoldable pub area_key : Metadata → ℕ → List ℕ → Result (Slot × List ℕ)
  area_key m keyslot password = do
    reject_if (ltb 4096 (length password)) resource_limit
    reject_if (not (is_text (codecs.utf8 password))) unlock_failed
    s ← slot m keyslot
    derived ← derive P s.kdf password s.area_key_size
    ok (s, derived)

  -- The area, up to the volume key that its digest confirms. `allocated` and `locked` say what the
  -- system makes of the key's page.
  unfoldable pub volume_key : Bool → Bool → Slot → List ℕ → List ℕ → Result VolumeKey
  volume_key allocated locked s derived encrypted = do
    af ← decrypt_sectors P derived 0 encrypted
    key ← af_merge P s.af_hash af s.key_size
    digest ← derive P s.digest_kdf key (length s.digest)
    reject_if (not (same_bytes digest s.digest)) unlock_failed
    new_volume_key allocated locked key

  module _ (B : Backend) (allocated locked : Bool) where
    abbrev pub finish : Metadata → Result VolumeKey → Image B → Outcome (UnlockedVolume B)
    finish m (err e) im = err e
    finish m (ok key) im = ok (record {
      image = im;
      offset = m.offset;
      len = m.length;
      key = key;
      poisoned = false;
      faulted = false;
    })

    abbrev pub read_area :
        Metadata → Slot → List ℕ → Outcome (List ℕ) × Image B → Outcome (UnlockedVolume B)
    read_area m s derived (ok encrypted, im) =
        finish m (volume_key allocated locked s derived encrypted) im
    read_area m s derived (err e, im) = err e
    read_area m s derived (panic, im) = panic
    read_area m s derived (unfinished, im) = unfinished

    abbrev pub open_slot : Metadata → Result (Slot × List ℕ) → Image B → Outcome (UnlockedVolume B)
    open_slot m (err e) im = err e
    open_slot m (ok (s, derived)) im =
        read_area m s derived (read_exact_at B im s.area_offset (s.key_size * 4000))

    abbrev pub with_metadata : ℕ → List ℕ → Outcome Metadata × Image B → Outcome (UnlockedVolume B)
    with_metadata keyslot password (ok m, im) = open_slot m (area_key m keyslot password) im
    with_metadata keyslot password (err e, im) = err e
    with_metadata keyslot password (panic, im) = panic
    with_metadata keyslot password (unfinished, im) = unfinished

    unfoldable pub unlock : Image B → ℕ → List ℕ → Outcome (UnlockedVolume B)
    unlock im keyslot password = with_metadata keyslot password (Header.read codecs P B im)
