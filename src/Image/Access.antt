-- ===== src/Image/Access.antt =====
-- What `write_all_at`, `sync` and `read_exact_at` of src/image.rs do to the image.
use winluks.Base.{ℕ, ◌+◌, ◌≤◌, ◌<◌, ◌≡◌, ◌≢◌, ◌⊎◌, List, [], arith}
use winluks.Base.{length}
use winluks.Base.Contents.{slice, overwrite, overwrite-base, slice-ext}
use winluks.Error.{Error, ok, err, panic, unfinished}
use winluks.Image.Os.{Backend, IsFile, IsPatient, IsCalm}
use winluks.Image.Loops.{write_loop-ne-panic, read_loop-ne-panic}
use winluks.Image.Loops.{write_loop-ne-unfinished, read_loop-ne-unfinished}
use winluks.Image.Rounds.{write_loop-contents, write_loop-outside, write_loop-size, read_loop-size}
use winluks.Image.Rounds.{read_loop-slice, read_loop-contents}
use winluks.Image.{AccessMode, Image, write_all_at, read_exact_at, sync, enough_fuel}

module _ (B : Backend) where
  -- The recorded length and the mode.
  pub write_all_at-geometry :
      (im : Image B) (offset : ℕ) (buf : List ℕ)
      → ((write_all_at B im offset buf).1.len ≡ im.len)
        × ((write_all_at B im offset buf).1.mode ≡ im.mode)
  unfolding write_all_at
  write_all_at-geometry im offset buf = ground arith

  pub read_exact_at-geometry :
      (im : Image B) (offset n : ℕ)
      → ((read_exact_at B im offset n).1.len ≡ im.len)
        × ((read_exact_at B im offset n).1.mode ≡ im.mode)
  unfolding read_exact_at
  read_exact_at-geometry im offset n = ground arith

  pub sync-geometry : (im : Image B) → ((sync B im).1.len ≡ im.len) × ((sync B im).1.mode ≡ im.mode)
  unfolding sync
  sync-geometry im = ground arith

  -- A read-only image is left exactly as it is.
  pub write_all_at_read_only :
      (im : Image B) (offset : ℕ) (buf : List ℕ)
      → im.mode ≡ AccessMode.read_only
      → write_all_at B im offset buf ≡ (err Error.read_only, im)
  unfolding write_all_at
  write_all_at_read_only im offset buf e = ground arith

  -- A write of an image ends: its loop does not run out of fuel, if the interruptions of the
  -- backend end.
  pub write_all_at-ne-unfinished :
      IsPatient B
      → (im : Image B) (offset : ℕ) (buf : List ℕ) → (write_all_at B im offset buf).0 ≢ unfinished
  unfolding write_all_at
  write_all_at-ne-unfinished patient im offset buf =
      let f = (B.file_len im.file).1 in
      ground (
        arith,
        write_loop-ne-unfinished B offset buf patient (enough_fuel B f (length buf)) f 0
            (omega arith),
      )

  -- A read of an image ends: its loop does not run out of fuel, if the interruptions of the
  -- backend end.
  pub read_exact_at-ne-unfinished :
      IsPatient B → (im : Image B) (offset n : ℕ) → (read_exact_at B im offset n).0 ≢ unfinished
  unfolding read_exact_at
  read_exact_at-ne-unfinished patient im offset n =
      let f = (B.file_len im.file).1 in
      ground
        (arith, read_loop-ne-unfinished B offset n patient (enough_fuel B f n) f [] (omega arith))

module _ (B : Backend) (calm : IsCalm B) (im : Image B) where
  pub write_all_at-ne-panic : (offset : ℕ) (buf : List ℕ) → (write_all_at B im offset buf).0 ≢ panic
  unfolding write_all_at
  write_all_at-ne-panic offset buf =
      let f = (B.file_len im.file).1 in
      ground (
        arith,
        calm.file_len-calm im.file,
        write_loop-ne-panic B calm offset buf (enough_fuel B f (length buf)) f 0,
      )

  pub read_exact_at-ne-panic : (offset n : ℕ) → (read_exact_at B im offset n).0 ≢ panic
  unfolding read_exact_at
  read_exact_at-ne-panic offset n =
      let f = (B.file_len im.file).1 in
      ground (
        arith,
        calm.file_len-calm im.file,
        read_loop-ne-panic B calm offset n (enough_fuel B f n) f [],
      )

  pub sync-ne-panic : (sync B im).0 ≢ panic
  unfolding sync
  sync-ne-panic =
      ground (arith, calm.file_len-calm im.file, calm.sync_all-calm (B.file_len im.file).1)

module _ (B : Backend) (im : Image B) where
  pub sync-ne-unfinished : (sync B im).0 ≢ unfinished
  unfolding sync
  sync-ne-unfinished = ground arith

module _ (B : Backend) (L : IsFile B) (im : Image B) where
  open L use {contents, size}

  -- A write of an image that reports success has put all its bytes at its offset, and changed no
  -- other byte, over short and interrupted writes of a backend that behaves as a file.
  pub write_all_at-contents :
      (offset : ℕ) (buf : List ℕ) (i : ℕ)
      → (write_all_at B im offset buf).0 ≡ ok tt
      → contents (write_all_at B im offset buf).1.file i ≡ overwrite (contents im.file) offset buf i
  unfolding write_all_at
  write_all_at-contents offset buf i e =
      let f = (B.file_len im.file).1 in
      ground (
        arith,
        write_loop-contents B L (enough_fuel B f (length buf)) f offset buf i,
        overwrite-base (contents f) (contents im.file) offset buf i (L.file_len-contents im.file i),
        L.file_len-done im.file im.len,
        L.file_len-size im.file,
      )

  -- Whatever a write of an image reports, the bytes of the file outside its range stay as they
  -- are, if the backend behaves as a file.
  pub write_all_at-outside :
      (offset : ℕ) (buf : List ℕ) (i : ℕ)
      → (i < offset) ⊎ (offset + length buf ≤ i)
      → contents (write_all_at B im offset buf).1.file i ≡ contents im.file i
  unfolding write_all_at
  write_all_at-outside offset buf i out =
      let f = (B.file_len im.file).1 in
      ground (
        arith,
        write_loop-outside B L (enough_fuel B f (length buf)) f offset buf i 0 out,
        L.file_len-contents im.file i,
      )

  pub write_all_at-size :
      (offset : ℕ) (buf : List ℕ) → size (write_all_at B im offset buf).1.file ≡ size im.file
  unfolding write_all_at
  write_all_at-size offset buf =
      let f = (B.file_len im.file).1 in
      ground (
        arith,
        write_loop-size B L (enough_fuel B f (length buf)) f offset buf 0,
        L.file_len-done im.file im.len,
        L.file_len-size im.file,
      )

  -- A read of an image that reports success returns exactly the bytes of the file in its range,
  -- over short and interrupted reads of a backend that behaves as a file.
  pub read_exact_at-slice :
      (offset n : ℕ) (out : List ℕ)
      → (read_exact_at B im offset n).0 ≡ ok out
      → out ≡ slice (contents im.file) offset n
  unfolding read_exact_at
  read_exact_at-slice offset n out e =
      let f = (B.file_len im.file).1 in
      ground (
        arith,
        read_loop-slice B L (enough_fuel B f n) f offset n out,
        slice-ext (contents f) (contents im.file) offset n (λ i _ _. L.file_len-contents im.file i),
        L.file_len-done im.file im.len,
        L.file_len-size im.file,
      )

  pub read_exact_at-contents :
      (offset n i : ℕ) → contents (read_exact_at B im offset n).1.file i ≡ contents im.file i
  unfolding read_exact_at
  read_exact_at-contents offset n i =
      let f = (B.file_len im.file).1 in
      ground (
        arith,
        read_loop-contents B L (enough_fuel B f n) f offset n [] i,
        L.file_len-contents im.file i,
      )

  pub sync-contents : (i : ℕ) → contents (sync B im).1.file i ≡ contents im.file i
  unfolding sync
  sync-contents i =
      ground (arith, L.file_len-contents im.file i, L.sync_all-contents (B.file_len im.file).1 i)

  -- No read and no flush changes the length of the file.
  pub read_exact_at-size : (offset n : ℕ) → size (read_exact_at B im offset n).1.file ≡ size im.file
  unfolding read_exact_at
  read_exact_at-size offset n =
      let f = (B.file_len im.file).1 in
      ground (arith, read_loop-size B L (enough_fuel B f n) f offset n [], L.file_len-size im.file)

  pub sync-size : size (sync B im).1.file ≡ size im.file
  unfolding sync
  sync-size = ground (arith, L.file_len-size im.file, L.sync_all-size (B.file_len im.file).1)
