-- ===== src/Metadata/Placement.antt =====
-- Where the accepted metadata of src/metadata.rs puts the payload.
use winluks.Base.{ℕ, ◌+◌, ◌*◌, ◌%◌, ◌≤◌, ◌<◌, ◌≡◌, List, [], ◌∷◌, String, Option, arith}
use winluks.Error.{ok, >>=-ok, Yields, Yields-bind, ◌>>=◌, ok_or, metadata_invalid}
use winluks.Base.Words.{checked_add, checked_mul}
use winluks.Metadata.Keyslots.{keyslots}
use winluks.Metadata.Digests.{tokens, digests}
use winluks.StrictJson.{Value}
use winluks.Metadata.Fields.{Object, as_object, get, only, get?, id}
use winluks.Metadata.Segments.{Segment, segment, place, scan_flags, check_cipher, no_flags}
use winluks.Metadata.{Metadata, config, from_json}

-- A payload of whole sectors between the keyslots area and the end of the image.
pub record IsInside (area_end image_len offset length : ℕ) : Type 0 where
  pub behind : area_end ≤ offset
  pub aligned : offset % 512 ≡ 0
  pub whole : length % 512 ≡ 0
  pub some_sector : 0 < length
  pub inside : offset + length ≤ image_len

place-IsInside :
    (seg : Object) (segid area_end image_len : ℕ) (s : Segment)
    → place seg segid area_end image_len ≡ ok s
    → IsInside area_end image_len s.offset s.length
unfolding place
place-IsInside seg segid area_end image_len s e = ground arith

pub segment-IsInside :
    (segs : Object) (area_end image_len : ℕ) (s : Segment)
    → segment segs area_end image_len ≡ ok s
    → IsInside area_end image_len s.offset s.length
unfolding segment
segment-IsInside [] area_end image_len s e = absurd (cc)
segment-IsInside ((name, v) ∷ []) area_end image_len s e =
    let flags = >>=-ok (scan_flags ((name, v) ∷ [])) _ e in
    let segid = >>=-ok (id name 31) _ flags.2 in
    let seg = >>=-ok (as_object v) _ segid.2 in
    let known = >>=-ok (only seg.0 _) _ seg.2 in
    let cipher = >>=-ok (check_cipher seg.0) _ known.2 in
    let plain = >>=-ok (no_flags (get? seg.0 "flags")) _ cipher.2 in
    place-IsInside seg.0 segid.0 area_end image_len s plain.2
segment-IsInside (x ∷ y ∷ segs) area_end image_len s e =
    absurd (cc ((>>=-ok (scan_flags (x ∷ y ∷ segs)) _ e).2))

-- The bounds of the keyslots area leave both headers in front of the payload.
bounds :
    (hdr_size keyslots_size area_start area_end image_len offset length : ℕ)
    → ok_or (checked_mul hdr_size 2) metadata_invalid ≡ ok area_start
    → ok_or (checked_add area_start keyslots_size) metadata_invalid ≡ ok area_end
    → IsInside area_end image_len offset length
    → IsInside (hdr_size * 2) image_len offset length
bounds hdr_size keyslots_size area_start area_end image_len offset length p q h = ground arith

module _ (decode64 : String → Option (List ℕ)) (v : Value) (hdr_size image_len : ℕ) where
  from_json-Yields :
      Yields
        (λ (m : Metadata). IsInside (hdr_size * 2) image_len m.offset m.length)
        (from_json decode64 v hdr_size image_len)
  unfolding from_json
  from_json-Yields = Yields-bind (as_object v) _ λ root _. Yields-bind (only root _) _ λ _ _.
      Yields-bind (get root "config" >>= as_object) _ λ c _.
        Yields-bind (config c hdr_size) _ λ keyslots_size _.
          Yields-bind (ok_or (checked_mul hdr_size 2) metadata_invalid) _ λ area_start p.
            Yields-bind (ok_or (checked_add area_start keyslots_size) metadata_invalid) _
              λ area_end q. Yields-bind (get root "segments" >>= as_object) _ λ segs _.
                Yields-bind (segment segs area_end image_len) _ λ seg placed.
                  Yields-bind (get root "keyslots" >>= as_object) _ λ keys _.
                    Yields-bind (keyslots decode64 area_start area_end keys) _ λ parsed _.
                      Yields-bind (get root "tokens" >>= as_object) _ λ ts _.
                        Yields-bind (tokens ts) _ λ _ _.
                          Yields-bind (get root "digests" >>= as_object) _ λ ds _.
                            Yields-bind (digests decode64 ds seg.id parsed) _ λ slots _. record {
                              at = λ m e.
                                  let inside =
                                    bounds hdr_size keyslots_size area_start area_end image_len
                                      seg.offset seg.length p q
                                      (segment-IsInside segs area_end image_len seg placed) in
                                  ground (arith, inside);
                            }

  -- Accepted metadata puts a payload of whole sectors, and of at least one, behind both headers
  -- and inside the image.
  pub from_json-IsInside :
      (m : Metadata)
      → from_json decode64 v hdr_size image_len ≡ ok m
      → IsInside (hdr_size * 2) image_len m.offset m.length
  from_json-IsInside m e = from_json-Yields.at m e
