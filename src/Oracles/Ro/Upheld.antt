-- ===== src/Oracles/Ro/Upheld.antt =====
-- No assertion that examples/oracle.rs makes of an unlocked volume fails.
use winluks.Base.{ℕ, ◌≡◌, ◌≢◌, refl, ◌∙◌, Bool, true, false, List, [], arith}
use winluks.Base.{some}
use winluks.Base.Contents.{Contents}
use winluks.Error.{Error, ok, stopping}
use winluks.Image.Os.{Backend, IsFile, IsPatient, done}
use winluks.Image.{sync}
use winluks.Image.Open.{FileSystem}
use winluks.Crypto.Primitives.{Libraries}
use winluks.Metadata.Header.{Codecs}
use winluks.Volume
use winluks.Volume.{UnlockedVolume, ValidatedVolume, validate, read_at, flush_locked}
use winluks.Volume.Endings.{validate-ne-unfinished}
use winluks.Adapter
use winluks.Adapter.{BlockAdapter, inner, new_adapter}
use winluks.Adapter.Commands.{read_only_refuses, stopped_idle}
use winluks.Oracles.{
  refuted, endless, Hasher, filesystem_of, zeros, Upholds, Upholds-done, attempt-Upholds,
  require-Upholds, and_then-Upholds, unwrap-Upholds, expect-Upholds, succeed-Upholds, is_read_only,
  is_stopping,
}
use winluks.Oracles.Ro.{Fixture, callbacks, checks}
use winluks.Oracles.Ro.Intact.{IsIntact, validate-IsIntact}
use winluks.Oracles.Ro.Whole.{IsSha, whole_volume-Upholds}
use winluks.Oracles.Ro.Ranges.{boundaries-Upholds, compare-Upholds, IsPlaintext}

module _ {B : Backend} (L : IsFile B) (patient : IsPatient B) (P : Libraries) (disk : Contents)
    (len : ℕ) where
  abbrev Intact : UnlockedVolume B → Type 0
  Intact = IsIntact L P disk len

  module _ (steady : (f : B.File) → (B.file_len f).0 ≡ done (L.size f)) where
    volume_flush-ok : (v : UnlockedVolume B) → Intact v → (Volume.flush B v).0 ≡ ok tt
    unfolding Volume.flush flush_locked sync
    volume_flush-ok v i =
        ground (arith, i.sound, i.in_order, i.read_only, i.sized, steady v.image.file)

    flush-ok :
        (a : BlockAdapter B)
        → a.stopped ≡ false
        → Intact (inner B a)
        → (Adapter.flush B a 0 0).0 ≡ ok tt
    unfolding Adapter.flush
    flush-ok a running i = ground (arith, volume_flush-ok (inner B a) i)

    -- Neither a refused write nor a refused unmap stops the adapter.
    write-stopped :
        (a : BlockAdapter B) (lba : ℕ) (bytes : List ℕ)
        → (Adapter.write B P a lba bytes).1.stopped ≡ a.stopped
    unfolding Adapter.write
    write-stopped a lba bytes = ground arith

    unmap-stopped : (a : BlockAdapter B) → (Adapter.unmap B a).1.stopped ≡ a.stopped
    unfolding Adapter.unmap
    unmap-stopped a = refl

    stop-stopped : (a : BlockAdapter B) → (Adapter.stop B a).stopped ≡ true
    unfolding Adapter.stop
    stop-stopped a = refl

    callbacks-Upholds :
        (a : BlockAdapter B)
        → a.stopped ≡ false
        → Intact (inner B a)
        → Upholds (λ (t : Unit {0}). Unit) (callbacks P a)
    unfolding callbacks
    callbacks-Upholds a running i =
        let written = read_only_refuses B P a i.read_only 0 zeros in
        let b = (Adapter.write B P a 0 zeros).1 in
        let ib : Intact (inner B b) = rw (inner, written.2) i in
        let unmapped = read_only_refuses B P b ib.read_only 0 zeros in
        let c = (Adapter.unmap B b).1 in
        let ic : Intact (inner B c) = rw (inner, unmapped.3) ib in
        let flushed = flush-ok c (unmap-stopped b ∙ write-stopped a 0 zeros ∙ running) ic in
        let d = (Adapter.flush B c 0 0).1 in
        let late = stopped_idle B P (Adapter.stop B d) (stop-stopped d) 0 1 [] in
        expect-Upholds is_read_only _ _ Error.read_only written.0 refl (
          expect-Upholds is_read_only _ _ Error.read_only unmapped.1 refl (
            succeed-Upholds (Adapter.flush B c 0 0).0 _ (λ e. cc (e, flushed))
              (λ x e. cc (e, flushed))
              (expect-Upholds is_stopping _ _ stopping late.0 refl (Upholds-done tt tt))))

module _ (H : Hasher) (codecs : Codecs) (P : Libraries) (crc32c : List ℕ → ℕ)
    (allocated locked : Bool) {B : Backend} (F : FileSystem B) (L : IsFile B)
    (patient : IsPatient B) (steady : (f : B.File) → (B.file_len f).0 ≡ done (L.size f))
    (x : Fixture) (disk : Contents) (v : UnlockedVolume B) where
  checks-Upholds :
      IsIntact L P disk v.len v
      → IsSha H disk v.len x.plaintext_sha256
      → IsPlaintext L disk v.len F x.plaintext
      → Upholds (λ (t : Unit {0}). Unit) (checks H codecs P crc32c allocated locked F x v)
  unfolding checks
  checks-Upholds i sha plaintext =
      and_then-Upholds _ _
        (whole_volume-Upholds H L patient P disk v.len x.plaintext_sha256 v sha i)
        (λ w _ iw. and_then-Upholds _ _ (boundaries-Upholds L patient P disk v.len w iw) (λ u _ iu.
          and_then-Upholds _ _
            (compare-Upholds L patient P disk v.len F x.plaintext x.exists u plaintext iu)
            (λ y _ iy. unwrap-Upholds x.filesystem _ (λ name _.
              require-Upholds (filesystem_of (some name)) _ (λ fs _.
                attempt-Upholds (validate B P crc32c y fs).0 _
                  (validate-ne-unfinished codecs P B patient crc32c y fs)
                  (λ valid e.
                    callbacks-Upholds L patient P disk v.len steady (new_adapter B valid) refl
                      (validate-IsIntact L P disk v.len crc32c y fs valid iy e)))))))

  -- None of the assertions that the read oracle makes of an unlocked volume fails, and it does not
  -- loop: the digest of the whole volume, the refusals at its end, the comparison of ranges with
  -- the plaintext, the refused writes, the flush and the stop. The volume is read-only, in order
  -- and shows a disk, with its payload in whole sectors inside an image of the length of its file;
  -- the digest in the manifest is that of the disk, the file of the plaintext, if it is opened,
  -- holds the disk, and the backend behaves as a file of which the interruptions end and the
  -- length can always be read.
  pub checks_upheld :
      IsIntact L P disk v.len v
      → IsSha H disk v.len x.plaintext_sha256
      → IsPlaintext L disk v.len F x.plaintext
      → (checks H codecs P crc32c allocated locked F x v ≢ refuted)
        × (checks H codecs P crc32c allocated locked F x v ≢ endless)
  checks_upheld i sha plaintext = let u = checks-Upholds i sha plaintext in (u.kept, u.ends)
