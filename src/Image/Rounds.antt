-- ===== src/Image/Rounds.antt =====
-- What the loops of src/image.rs do to the bytes of the file, round by round.
use winluks.Base.{ℕ, ◌+◌, ◌-◌, ◌≤◌, ◌<◌, ◌≡◌, refl, ◌∙◌, ◌⊎◌, ap, List, [], ◌++◌, arith}
use winluks.Base.{length, take, drop, length-append, length-take, length-drop, take-add, take-all}
use winluks.Base.Contents.{slice, overwrite, overwrite-base, overwrite-append}
use winluks.Base.Contents.{slice-append, slice-ext}
use winluks.Error.{ok}
use winluks.Image.Os.{Backend, IsFile, done, interrupted}
use winluks.Image.Loops.{write_loop_keeps, write_loop_inv}
use winluks.Image.Loops.{read_loop_keeps, read_loop_inv}
use winluks.Image.{write_loop, read_loop}

module _ (B : Backend) (L : IsFile B) where
  open L use {contents, size}

  -- The contents after `count` bytes of the buffer have been written over those of `f`.
  record Written (f : B.File) (offset : ℕ) (buf : List ℕ) (g : B.File) (count : ℕ) : Type 0 where
    part : count ≤ length buf
    same_size : size g ≡ size f
    at : (i : ℕ) → contents g i ≡ overwrite (contents f) offset (take count buf) i

  Written-more :
      (f : B.File) (offset : ℕ) (buf : List ℕ) (g : B.File) (count n : ℕ)
      → offset + length buf ≤ size f
      → Written f offset buf g count
      → (B.write_at g (offset + count) (drop count buf)).0 ≡ done n
      → Written f offset buf (B.write_at g (offset + count) (drop count buf)).1 (count + n)
  Written-more f offset buf g count n room w e = record {
    part = omega (arith, within, length-drop count buf);
    same_size = omega (arith, L.write_at-size g (offset + count) rest fits);
    at = λ i.
        (L.write_at-done g (offset + count) rest n i e fits).1
        ∙ overwrite-base _ _ (offset + count) (take n rest) i (w.at i)
        ∙ overwrite-append (contents f) offset (offset + count) (take count buf) (take n rest) i
            (omega (arith, length-take count buf))
        ∙ ap (λ b. overwrite (contents f) offset b i) (take-add count n (count + n) buf refl);
  }
    where
      rest : List ℕ
      rest = drop count buf

      fits : offset + count + length rest ≤ size g
      fits = omega (arith, length-drop count buf, w.part, w.same_size)

      within : n ≤ length rest
      within = (L.write_at-done g (offset + count) rest n 0 e fits).0

  Written-again :
      (f : B.File) (offset : ℕ) (buf : List ℕ) (g : B.File) (count : ℕ)
      → offset + length buf ≤ size f
      → Written f offset buf g count
      → (B.write_at g (offset + count) (drop count buf)).0 ≡ interrupted
      → Written f offset buf (B.write_at g (offset + count) (drop count buf)).1 count
  Written-again f offset buf g count room w e = record {
    part = w.part;
    same_size = omega (
      arith,
      w.same_size,
      w.part,
      L.write_at-size g (offset + count) (drop count buf),
      length-drop count buf,
    );
    at = λ i. L.write_at-interrupted g (offset + count) (drop count buf) i e ∙ w.at i;
  }

  -- A loop that ends well has written the whole buffer.
  pub write_loop-contents :
      (fuel : ℕ) (f : B.File) (offset : ℕ) (buf : List ℕ) (i : ℕ)
      → offset + length buf ≤ size f
      → (write_loop B fuel f offset buf 0).0 ≡ ok tt
      → contents (write_loop B fuel f offset buf 0).1 i ≡ overwrite (contents f) offset buf i
  unfolding overwrite
  write_loop-contents fuel f offset buf i room e =
      write_loop_inv B offset buf (Written f offset buf)
        (λ g. contents g i ≡ overwrite (contents f) offset buf i)
        (λ g count n w _ d. Written-more f offset buf g count n room w d)
        (λ g count w d. Written-again f offset buf g count room w d)
        (λ g count w all.
          w.at i ∙ ap (λ b. overwrite (contents f) offset b i) (take-all count buf all))
        fuel f 0 (record { part = omega arith; same_size = refl; at = λ j. refl }) e

  -- However it ends, it has touched nothing outside its range.
  pub write_loop-outside :
      (fuel : ℕ) (f : B.File) (offset : ℕ) (buf : List ℕ) (i count : ℕ)
      → (i < offset) ⊎ (offset + length buf ≤ i)
      → contents (write_loop B fuel f offset buf count).1 i ≡ contents f i
  write_loop-outside fuel f offset buf i count out =
      write_loop_keeps B offset buf (λ g. contents g i ≡ contents f i)
        (λ g c h q. ground (
          arith,
          L.write_at-below g (offset + c) (drop c buf) i,
          L.write_at-above g (offset + c) (drop c buf) i,
          length-drop c buf,
        ))
        fuel f count refl

  pub write_loop-size :
      (fuel : ℕ) (f : B.File) (offset : ℕ) (buf : List ℕ) (count : ℕ)
      → offset + length buf ≤ size f
      → size (write_loop B fuel f offset buf count).1 ≡ size f
  write_loop-size fuel f offset buf count room =
      write_loop_keeps B offset buf (λ g. size g ≡ size f)
        (λ g c h q. omega (arith, L.write_at-size g (offset + c) (drop c buf), length-drop c buf))
        fuel f count refl

  pub read_loop-size :
      (fuel : ℕ) (f : B.File) (offset n : ℕ) (buf : List ℕ)
      → size (read_loop B fuel f offset n buf).1 ≡ size f
  read_loop-size fuel f offset n buf =
      read_loop_keeps B offset n (λ g. size g ≡ size f) (λ g o m e q. L.read_at-size g o m ∙ q) fuel
        f buf refl

  record Filled (f : B.File) (offset total : ℕ) (g : B.File) (buf : List ℕ) : Type 0 where
    part : length buf ≤ total
    same_size : size g ≡ size f
    same : (i : ℕ) → contents g i ≡ contents f i
    bytes : buf ≡ slice (contents f) offset (length buf)

  Filled-more :
      (f : B.File) (offset total : ℕ) (g : B.File) (buf more : List ℕ)
      → offset + total ≤ size f
      → Filled f offset total g buf
      → length buf < total
      → (B.read_at g (offset + length buf) (total - length buf)).0 ≡ done more
      → Filled f offset total
          (B.read_at g (offset + length buf) (total - length buf)).1
          (buf ++ more)
  Filled-more f offset total g buf more room w short e = record {
    part = omega (arith, got.0, length-append buf more);
    same_size =
        omega (arith, L.read_at-size g (offset + length buf) (total - length buf), w.same_size);
    same = λ i. L.read_at-contents g (offset + length buf) (total - length buf) i ∙ w.same i;
    bytes = cc (
      w.bytes,
      got.1,
      slice-ext (contents g) (contents f) (offset + length buf) (length more) (λ i _ _. w.same i),
      slice-append (contents f) offset (length buf) (length more) (length (buf ++ more))
          (omega (arith, length-append buf more)),
    );
  }
    where
      got :
          (length more ≤ total - length buf)
          × (more ≡ slice (contents g) (offset + length buf) (length more))
      got =
          L.read_at-done g (offset + length buf) (total - length buf) more e
            (omega (arith, w.same_size))

  Filled-again :
      (f : B.File) (offset total : ℕ) (g : B.File) (buf : List ℕ)
      → Filled f offset total g buf
      → Filled f offset total (B.read_at g (offset + length buf) (total - length buf)).1 buf
  Filled-again f offset total g buf w = record {
    part = w.part;
    same_size =
        omega (arith, L.read_at-size g (offset + length buf) (total - length buf), w.same_size);
    same = λ i. L.read_at-contents g (offset + length buf) (total - length buf) i ∙ w.same i;
    bytes = w.bytes;
  }

  pub read_loop-slice :
      (fuel : ℕ) (f : B.File) (offset total : ℕ) (out : List ℕ)
      → offset + total ≤ size f
      → (read_loop B fuel f offset total []).0 ≡ ok out
      → out ≡ slice (contents f) offset total
  read_loop-slice fuel f offset total out room e = finish (
      read_loop_inv B offset total (Filled f offset total)
        (λ g buf more w short d. Filled-more f offset total g buf more room w short d)
        (λ g buf w. Filled-again f offset total g buf w) fuel f [] out
        (record {
          part = omega arith;
          same_size = refl;
          same = λ i. refl;
          bytes = unfold slice in refl;
        })
        e)
    where
      finish :
          Filled f offset total (read_loop B fuel f offset total []).1 out × (total ≤ length out)
          → out ≡ slice (contents f) offset total
      finish (w, all) =
          let e' : length out ≡ total = omega (arith, w.part) in
          w.bytes ∙ ap (λ n. slice (contents f) offset n) e'

  pub read_loop-contents :
      (fuel : ℕ) (f : B.File) (offset total : ℕ) (buf : List ℕ) (i : ℕ)
      → contents (read_loop B fuel f offset total buf).1 i ≡ contents f i
  read_loop-contents fuel f offset total buf i =
      read_loop_keeps B offset total (λ g. contents g i ≡ contents f i)
        (λ g o n _ q. L.read_at-contents g o n i ∙ q) fuel f buf refl
