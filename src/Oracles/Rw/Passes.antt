-- ===== src/Oracles/Rw/Passes.antt =====
-- The run of examples/rw_oracle.rs as a whole.
use mathlib.Core.Path.{fun_ext}
use winluks.Base.{
  ℕ, ◌%◌, ◌^◌, ◌<◌, ◌≡◌, ◌≢◌, refl, ap, ◌∙◌, sym, inl, Bool, false, List, arith, ==_iff,
}
use winluks.Base.{length}
use winluks.Base.Words.{u64_size}
use winluks.Error.{ok}
use winluks.Image.Os.{Backend, IsFile, IsPatient}
use winluks.Image.{Image, AccessMode}
use winluks.Image.Open.{FileSystem}
use winluks.Crypto.Primitives.{Libraries, IsCipher}
use winluks.Crypto.{not_key_size}
use winluks.Metadata.{Metadata}
use winluks.Metadata.Header
use winluks.Metadata.Header.{Codecs}
use winluks.Metadata.Origin.{metadata_of, read-IsRead}
use winluks.Probe.{Filesystem}
use winluks.Probe.Fields.{same_bytes_refl}
use winluks.Volume.{UnlockedVolume, ValidatedVolume, validate}
use winluks.Volume.Payload.{IsPlaced}
use winluks.Volume.Unlock.{unlock}
use winluks.Volume.Unlocked.{unlock-IsPlaced, unlock_fresh, read-SameImage}
use winluks.Volume.Origin.{unlock-IsFrom}
use winluks.Volume.Plain.{Decrypts, plain_disk, plain_disk-Shows}
use winluks.Volume.Ready.{validate-IsReady}
use winluks.Volume.Endings.{read-ne-unfinished, unlock-ne-unfinished, validate-ne-unfinished}
use winluks.Adapter.{inner, new_adapter}
use winluks.Oracles.{
  and_then, filesystem_of, done, refuted, endless, Hasher, open_image, Upholds, Upholds-done,
  attempt-Upholds, attempt_open-Upholds, require-Upholds, and_then-Upholds, claim-Upholds,
}
use winluks.Oracles.Reopening.{Describes, Leads, open_image-IsOpened}
use winluks.Oracles.Rw.{Fixture, prefix, rewrite, reopen, with_prefix, main}
use winluks.Oracles.Rw.Prefix.{IsLike, prefix-Upholds, prefix_same}
use winluks.Oracles.Rw.Session.{IsGoing}
use winluks.Oracles.Rw.Upheld.{rewrite-Upholds}

module _ (H : Hasher) (codecs : Codecs) (P : Libraries) (crc32c : List ℕ → ℕ)
    (allocated locked : Bool) {B : Backend} (F : FileSystem B) (closed : B.File → FileSystem B)
    (L : IsFile B) (patient : IsPatient B) (C : IsCipher P)
    (decrypts : (key : List ℕ) → not_key_size (length key) ≡ false → Decrypts P key) (x : Fixture)
    (describes : Describes L F) (leads : (f : B.File) → Leads L x.place.path f (closed f)) where
  abbrev Passed : Unit {0} → Type 0
  Passed _ = Unit

  -- The digest that was taken at the start, over the bytes of an image.
  record Taken (im : Image B) (offset : ℕ) (before : List ℕ) : Type 0 where
    jm : Image B
    found : prefix H im offset ≡ done (before, jm)

  reopen-Upholds :
      (im : Image B) (original_size offset : ℕ) (before : List ℕ) (file : B.File)
      → Taken im offset before
      → ((i : ℕ) → i < offset → L.contents file i ≡ L.contents im.file i)
      → L.size file ≡ original_size
      → Upholds Passed (
          reopen H codecs P crc32c allocated locked F closed x.place original_size offset before
            file)
  unfolding reopen
  reopen-Upholds im original_size offset before file taken below size =
      attempt_open-Upholds (open_image (closed file) x.place AccessMode.read_only) _ (λ after o.
        let way = leads file in
        let opened = open_image-IsOpened L (closed file) x.place AccessMode.read_only after o in
        let same_len : after.len ≡ original_size =
          opened.sized
          ∙ way.describes.described after.file opened.meta opened.described
          ∙ way.same_size opened.options after.file opened.opened
          ∙ size in
        claim-Upholds _ _ ((==_iff after.len original_size).1 same_len) (
          and_then-Upholds (prefix H after offset) _ (prefix-Upholds H L patient after offset)
            (λ out e _.
              let same : out.0 ≡ before =
                prefix_same H L patient after im offset out (before, taken.jm)
                  (λ i p. way.same opened.options after.file opened.opened i ∙ below i p) e
                  taken.found in
              claim-Upholds _ _ (rw same (same_bytes_refl before)) (Upholds-done tt tt))))

  -- A volume that was unlocked from the image, with its payload where the digest ended.
  record IsUnlocked (jm : Image B) (offset : ℕ) (v : UnlockedVolume B) : Type 0 where
    placed : IsPlaced v
    sound : v.poisoned ≡ false
    writable : v.image.mode ≡ AccessMode.read_write
    keyed : not_key_size (length v.key.bytes) ≡ false
    starts : v.offset ≡ offset
    kept : (i : ℕ) → L.contents v.image.file i ≡ L.contents jm.file i
    file_size : L.size v.image.file ≡ L.size jm.file

  -- The volume is validated and served, and its image is opened again.
  serve_oracle-Upholds :
      (im jm : Image B) (offset : ℕ) (before : List ℕ) (v : UnlockedVolume B) (fs : Filesystem)
      → Taken im offset before
      → IsLike L im jm
      → jm.len ≡ L.size jm.file
      → IsUnlocked jm offset v
      → (valid : ValidatedVolume B) → (validate B P crc32c v fs).0 ≡ ok valid
      → Upholds Passed (
          and_then (rewrite P (new_adapter B valid)) (λ a.
            reopen H codecs P crc32c allocated locked F closed x.place jm.len offset before
              (inner B a).image.file))
  serve_oracle-Upholds im jm offset before v fs taken like sized u valid q =
      let D = decrypts v.key.bytes u.keyed in
      let disk = plain_disk L P C v D in
      let ready =
        (validate-IsReady B L P disk v crc32c fs valid u.placed (plain_disk-Shows L P C v D) u.sound
          q).0 in
      let going : IsGoing B L patient P C v (new_adapter B valid) = record {
        framed = record {
          session = ready.session;
          below = λ i _. ready.kept i;
          file_size = ready.file_size;
        };
        running = refl;
        writable = ready.same_mode ∙ u.writable;
        disk = disk;
        holds = record { placed = ready.placed; state = inl ready.shows };
      } in
      and_then-Upholds (rewrite P (new_adapter B valid)) _
        (rewrite-Upholds B L patient P C v (new_adapter B valid) going)
        (λ a _ framed.
          reopen-Upholds im jm.len offset before (inner B a).image.file taken
            (λ i p. framed.below i (omega (arith, p, u.starts)) ∙ u.kept i ∙ like.kept i)
            (framed.file_size ∙ u.file_size ∙ sym sized))

  with_prefix-Upholds :
      (im jm : Image B) (meta : Metadata) (before : List ℕ)
      → Taken im meta.offset before
      → IsLike L im jm
      → jm.len ≡ L.size jm.file
      → jm.len < u64_size
      → jm.mode ≡ AccessMode.read_write
      → metadata_of codecs P B (L.contents jm.file) jm.len ≡ ok meta
      → Upholds Passed
          (with_prefix H codecs P crc32c allocated locked F closed x jm meta.offset before)
  unfolding with_prefix
  with_prefix-Upholds im jm meta before taken like sized short writable source =
      require-Upholds (filesystem_of x.filesystem) _ (λ fs _.
        require-Upholds x.keyslot _ (λ keyslot _.
          let slot = keyslot % 2 ^ 32 in
          attempt-Upholds (unlock codecs P B allocated locked jm slot x.password) _
            (unlock-ne-unfinished codecs P B patient allocated locked jm slot x.password)
            (λ v e.
              let from = unlock-IsFrom codecs P L allocated locked v jm slot x.password e in
              let fresh = unlock_fresh codecs P B allocated locked v jm slot x.password e in
              let same : from.0 ≡ meta = ground (arith, from.1, source) in
              attempt-Upholds (validate B P crc32c v fs).0 _
                (validate-ne-unfinished codecs P B patient crc32c v fs)
                (serve_oracle-Upholds im jm meta.offset before v fs taken like sized (record {
                  placed = unlock-IsPlaced codecs P B allocated locked v jm slot x.password short e;
                  sound = fresh.0;
                  writable = fresh.2 ∙ writable;
                  keyed = fresh.3;
                  starts = from.2.offset ∙ ap (λ m. m.offset) same;
                  kept = from.2.kept;
                  file_size = from.2.file_size;
                })))))

  main-Upholds : Upholds Passed (main H codecs P crc32c allocated locked F closed x)
  unfolding main
  main-Upholds = attempt_open-Upholds (open_image F x.place AccessMode.read_write) _ (λ image o.
      let opened = open_image-IsOpened L F x.place AccessMode.read_write image o in
      let im = (Header.read codecs P B image).1 in
      let r = read-IsRead codecs P L image in
      let mode = (read-SameImage codecs P B image).mode in
      let len : image.len ≡ L.size image.file =
        opened.sized ∙ describes.described image.file opened.meta opened.described in
      attempt-Upholds (Header.read codecs P B image).0 _
        (read-ne-unfinished codecs P B patient image)
        (λ meta m.
          and_then-Upholds (prefix H im meta.offset) _ (prefix-Upholds H L patient im meta.offset)
            (λ out found like.
              let same : L.contents out.1.file ≡ L.contents image.file =
                fun_ext (λ i. like.kept i ∙ r.kept i) in
              let same_len : out.1.len ≡ image.len = like.len ∙ r.len in
              with_prefix-Upholds im out.1 meta out.0 (record { jm = out.1; found = found }) like
                (same_len ∙ len ∙ sym (like.file_size ∙ r.file_size))
                (omega (
                  arith,
                  same_len,
                  opened.sized,
                  describes.short image.file opened.meta opened.described,
                ))
                (like.mode ∙ mode ∙ opened.same_mode) (rw (same, same_len) (r.found meta m)))))

  -- The write oracle finds no fault, and does not loop: whatever the fixture and whichever calls
  -- fail, fall short, are interrupted or panic, none of its assertions fails. What it writes reads
  -- back, the calls that must be refused are refused, and after the volume is dropped the image
  -- has its old length and the old bytes before the payload. The backend behaves as a file of
  -- which the interruptions end, the file system reports 64-bit lengths that are those of the
  -- files and leads back to the same file, the cipher decrypts what it encrypted and decrypts each
  -- full sector under a key of a supported size.
  pub main_upheld :
      (main H codecs P crc32c allocated locked F closed x ≢ refuted)
      × (main H codecs P crc32c allocated locked F closed x ≢ endless)
  main_upheld = (main-Upholds.kept, main-Upholds.ends)
