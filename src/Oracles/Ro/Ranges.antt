-- ===== src/Oracles/Ro/Ranges.antt =====
-- The reads of examples/oracle.rs at the end of the volume, and against the file of the plaintext.
use winluks.Base.{
  ℕ, ◌-◌, ◌^◌, ◌<◌, ◌≡◌, refl, ap, ◌∙◌, sym, Bool, true, false, List, [], ◌∷◌, arith,
}
use winluks.Base.{leb, Option, some}
use winluks.Base.Contents.{Contents, slice, slice-ext}
use winluks.Error.{invalid_range}
use winluks.Image.Os.{Backend, IsFile, IsPatient}
use winluks.Image.{Image, AccessMode, read_exact_at}
use winluks.Image.Access.{read_exact_at-ne-unfinished, read_exact_at-slice, read_exact_at-contents}
use winluks.Image.Open.{FileSystem, OpenOptions}
use winluks.Crypto.Primitives.{Libraries}
use winluks.Probe.Fields.{same_bytes_refl}
use winluks.Volume.{UnlockedVolume, read_at}
use winluks.Volume.Totality.{read_at-ne-unfinished}
use winluks.Oracles.{
  Trial, panicked, attempt_open, Place, open_image, Upholds, Upholds-done, Upholds-panicked,
  attempt-Upholds, attempt_open-Upholds, unwrap-Upholds, claim-Upholds, expect-Upholds,
  is_invalid_range,
}
use winluks.Oracles.Reopening.{open_image-IsOpened}
use winluks.Oracles.Ro.{boundaries, compare_ranges, compare, ranges, is_empty}
use winluks.Oracles.Ro.Intact.{
  IsIntact, read_at-IsIntact, read_at_shown, read_at_outside, read_at_inside,
}

slice_none : (c : Contents) (o : ℕ) → slice c o 0 ≡ []
unfolding slice
slice_none c o = refl

module _ {B : Backend} (L : IsFile B) (disk : Contents) (len : ℕ) where
  -- The file of the plaintext, where there is one, holds the disk.
  abbrev pub IsPlaintext : FileSystem B → Option Place → Type 0
  IsPlaintext F plaintext =
      (place : Place) (options : OpenOptions) (f : B.File)
      → plaintext ≡ some place
      → F.open_file options place.path ≡ some f
      → (i : ℕ) → i < len
      → L.contents f i ≡ disk i

module _ {B : Backend} (L : IsFile B) (patient : IsPatient B) (P : Libraries) (disk : Contents)
    (len : ℕ) where
  abbrev Intact : UnlockedVolume B → Type 0
  Intact = IsIntact L P disk len

  pub boundaries-Upholds : (v : UnlockedVolume B) → Intact v → Upholds Intact (boundaries P v)
  unfolding boundaries
  boundaries-Upholds v i =
      let far = 2 ^ 64 - 1 in
      let far_refused =
        read_at_outside L P disk len v i far 512
          (omega (arith, i.placed.inside, i.placed.addressable)) in
      let w = (read_at B P v far 512).1 in
      let iw = read_at-IsIntact L P disk len v i far 512 (λ p. cc (p, far_refused)) in
      let past_refused = read_at_outside L P disk len w iw w.len 512 (omega arith) in
      let u = (read_at B P w w.len 512).1 in
      let iu = read_at-IsIntact L P disk len w iw w.len 512 (λ p. cc (p, past_refused)) in
      expect-Upholds is_invalid_range _ _ invalid_range far_refused refl (
        expect-Upholds is_invalid_range _ _ invalid_range past_refused refl (
          attempt-Upholds (read_at B P u u.len 0).0 _ (read_at-ne-unfinished B patient P u u.len 0)
            (λ bytes e.
              let nothing : bytes ≡ [] =
                read_at_shown L P disk len u iu u.len 0 bytes e ∙ slice_none disk u.len in
              claim-Upholds _ _ (ap is_empty nothing)
                (Upholds-done _ (read_at-IsIntact L P disk len u iu u.len 0 (λ p. cc (p, e)))))))

  -- An image of the plaintext of the disk.
  abbrev Agrees : Image B → Type 0
  Agrees im = (i : ℕ) → i < len → L.contents im.file i ≡ disk i

  compare_ranges-Upholds :
      (rs : List (ℕ × ℕ)) (oracle : Image B) (v : UnlockedVolume B)
      → Agrees oracle
      → Intact v
      → Upholds Intact (compare_ranges P rs oracle v)
  unfolding compare_ranges
  compare_ranges-Upholds [] oracle v agrees i = Upholds-done v i
  compare_ranges-Upholds ((offset, n) ∷ rs) oracle v agrees i =
      attempt-Upholds (read_exact_at B oracle offset n).0 _
        (read_exact_at-ne-unfinished B patient oracle offset n)
        (λ expected e.
          attempt-Upholds (read_at B P v offset n).0 _
            (read_at-ne-unfinished B patient P v offset n)
            (λ got r.
              let inside = read_at_inside L P disk len v i offset n got r in
              let same : got ≡ expected =
                read_at_shown L P disk len v i offset n got r
                ∙ sym (
                    read_exact_at-slice B L oracle offset n expected e
                    ∙ slice-ext (L.contents oracle.file) disk offset n
                        (λ j p q. agrees j (omega (arith, q, inside, i.same_len)))) in
              claim-Upholds _ _ (rw same (same_bytes_refl expected)) (
                compare_ranges-Upholds rs (read_exact_at B oracle offset n).1
                  (read_at B P v offset n).1
                  (λ j p. read_exact_at-contents B L oracle offset n j ∙ agrees j p)
                  (read_at-IsIntact L P disk len v i offset n (λ p. cc (p, r))))))

  pub compare-Upholds :
      (F : FileSystem B) (plaintext : Option Place) (exists : Bool) (v : UnlockedVolume B)
      → IsPlaintext L disk len F plaintext
      → Intact v
      → Upholds Intact (compare P F plaintext exists v)
  unfolding compare
  compare-Upholds F plaintext exists v truth i =
      unwrap-Upholds plaintext _ (λ place given. by_file place given exists)
    where
      by_size :
          (oracle : Image B)
          → Agrees oracle
          → (big : Bool)
          → Upholds Intact (elim big as (λ _. Trial (UnlockedVolume B)) [
            | false ↦ panicked
            | true ↦ compare_ranges P (ranges v.len) oracle v
          ])
      by_size oracle agrees false = Upholds-panicked
      by_size oracle agrees true = compare_ranges-Upholds (ranges v.len) oracle v agrees i

      by_file :
          (place : Place)
          → plaintext ≡ some place
          → (there : Bool)
          → Upholds Intact (elim there as (λ _. Trial (UnlockedVolume B)) [
            | false ↦ Trial.done v
            | true ↦ attempt_open (open_image F place AccessMode.read_only) (λ oracle.
                elim (leb 512 v.len) as (λ _. Trial (UnlockedVolume B)) [
                  | false ↦ panicked
                  | true ↦ compare_ranges P (ranges v.len) oracle v
                ])
          ])
      by_file place given false = Upholds-done v i
      by_file place given true =
          attempt_open-Upholds (open_image F place AccessMode.read_only) _ (λ oracle o.
            let opened = open_image-IsOpened L F place AccessMode.read_only oracle o in
            by_size oracle (truth place opened.options oracle.file given opened.opened)
              (leb 512 v.len))
