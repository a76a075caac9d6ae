-- ===== src/Oracles/Rw/Prefix.antt =====
-- `prefix` of examples/rw_oracle.rs: the digest of the bytes before the payload.
use winluks.Base.{ℕ, ◌+◌, ◌-◌, ◌<◌, ◌≡◌, refl, ◌∙◌, Bool, true, false, List, arith}
use winluks.Base.{zero, suc, ltb, some}
use winluks.Base.Contents.{slice}
use winluks.Image.Os.{Backend, IsFile, IsPatient}
use winluks.Image.{Image, read_exact_at}
use winluks.Image.Access.{
  read_exact_at-slice, read_exact_at-contents, read_exact_at-geometry, read_exact_at-size,
  read_exact_at-ne-unfinished,
}
use winluks.Adapter.Windows.Consumer.{hex}
use winluks.Oracles.{
  Trial, done, attempt, require, Hasher, smaller, mebibyte, Upholds, Upholds-done, attempt-Upholds,
  require-Upholds,
}
use winluks.Oracles.Digest.{smaller-positive, digest_of, digest_of-ext, require-done, attempt-done}
use winluks.Oracles.Rw.{prefix, prefix_loop}

-- An image as another one was, but for what reads do to its handle.
pub record IsLike {B : Backend} (L : IsFile B) (im jm : Image B) : Type 0 where
  pub kept : (i : ℕ) → L.contents jm.file i ≡ L.contents im.file i
  pub len : jm.len ≡ im.len
  pub mode : jm.mode ≡ im.mode
  pub file_size : L.size jm.file ≡ L.size im.file

IsLike-refl : {B : Backend} (L : IsFile B) (im : Image B) → IsLike L im im
IsLike-refl L im = record { kept = λ i. refl; len = refl; mode = refl; file_size = refl }

pub IsLike-trans :
    {B : Backend} (L : IsFile B) {im jm km : Image B}
    → IsLike L im jm
    → IsLike L jm km
    → IsLike L im km
IsLike-trans L s t = record {
  kept = λ i. t.kept i ∙ s.kept i;
  len = t.len ∙ s.len;
  mode = t.mode ∙ s.mode;
  file_size = t.file_size ∙ s.file_size;
}

module _ (H : Hasher) {B : Backend} (L : IsFile B) (patient : IsPatient B) where
  -- What a finished run of `prefix` has given and left.
  pub record IsDigested (fuel len offset : ℕ) (hash : H.State) (im : Image B) (x : List ℕ × Image B)
      : Type 0 where
    pub digest : digest_of H (L.contents im.file) fuel len offset hash ≡ some x.0
    pub like : IsLike L im x.1

  read_exact_at-IsLike : (im : Image B) (offset n : ℕ) → IsLike L im (read_exact_at B im offset n).1
  read_exact_at-IsLike im offset n = record {
    kept = read_exact_at-contents B L im offset n;
    len = (read_exact_at-geometry B im offset n).0;
    mode = (read_exact_at-geometry B im offset n).1;
    file_size = read_exact_at-size B L im offset n;
  }

  prefix_loop-IsDigested :
      (fuel len offset : ℕ) (hash : H.State) (im : Image B) (out : List ℕ × Image B)
      → prefix_loop H fuel im len offset hash ≡ done out
      → IsDigested fuel len offset hash im out
  unfolding prefix_loop
  prefix_loop-IsDigested zero len offset hash im out e = absurd (cc)
  prefix_loop-IsDigested (suc fuel) len offset hash im out e =
      by_test (λ o next jm. prefix_loop-IsDigested fuel len o next jm out) (ltb offset len) refl e
    where
      n : ℕ
      n = smaller (len - offset) mebibyte

      by_test :
          ((o : ℕ) (next : H.State) (jm : Image B)
            → prefix_loop H fuel jm len o next ≡ done out
            → IsDigested fuel len o next jm out)
          → (more : Bool) → ltb offset len ≡ more
          → (elim more as (λ _. Trial (List ℕ × Image B)) [
            | false ↦ require (H.finish hash) (λ digest. done (hex digest, im))
            | true ↦ attempt (read_exact_at B im offset n).0 (λ buffer.
                require (H.update hash buffer) (λ next.
                  prefix_loop H fuel (read_exact_at B im offset n).1 len (offset + n) next))
          ])
            ≡ done out
          → IsDigested (suc fuel) len offset hash im out
      by_test ih false q d =
          let f = require-done (H.finish hash) _ out d in
          let same : im ≡ out.1 = ground (arith, f.2) in
          record { digest = ground (arith, f.1, f.2); like = rw (← same) (IsLike-refl L im) }
      by_test ih true q d =
          let f = attempt-done (read_exact_at B im offset n).0 _ out d in
          let g = require-done (H.update hash f.0) _ out f.2 in
          let jm = (read_exact_at B im offset n).1 in
          let h = ih (offset + n) g.0 jm g.2 in
          let chunk : f.0 ≡ slice (L.contents im.file) offset n =
            read_exact_at-slice B L im offset n f.0 f.1 in
          let like = read_exact_at-IsLike im offset n in
          let rest =
            digest_of-ext H (L.contents jm.file) (L.contents im.file) fuel len (offset + n) g.0
              (λ i _. like.kept i) in
          record {
            digest = ground (arith, chunk, g.1, h.digest, rest);
            like = IsLike-trans L like h.like;
          }

  prefix_loop-Upholds :
      (fuel len offset : ℕ) (hash : H.State) (im : Image B)
      → len - offset < fuel
      → Upholds (λ (x : List ℕ × Image B). Unit) (prefix_loop H fuel im len offset hash)
  unfolding prefix_loop
  prefix_loop-Upholds zero len offset hash im enough = elim enough [ ]
  prefix_loop-Upholds (suc fuel) len offset hash im enough =
      by_test (prefix_loop-Upholds fuel len) (ltb offset len) refl
    where
      n : ℕ
      n = smaller (len - offset) mebibyte

      by_test :
          ((o : ℕ) (next : H.State) (jm : Image B)
            → len - o < fuel
            → Upholds (λ (x : List ℕ × Image B). Unit) (prefix_loop H fuel jm len o next))
          → (more : Bool) → ltb offset len ≡ more
          → Upholds
              (λ (x : List ℕ × Image B). Unit)
              (elim more as (λ _. Trial (List ℕ × Image B)) [
                | false ↦ require (H.finish hash) (λ digest. done (hex digest, im))
                | true ↦ attempt (read_exact_at B im offset n).0 (λ buffer.
                    require (H.update hash buffer) (λ next.
                      prefix_loop H fuel (read_exact_at B im offset n).1 len (offset + n) next))
              ])
      by_test ih false q =
          require-Upholds (H.finish hash) _ (λ digest _. Upholds-done (hex digest, im) tt)
      by_test ih true q =
          let more : 0 < len - offset = ground arith in
          let some_bytes = smaller-positive (len - offset) mebibyte more (omega arith) in
          attempt-Upholds (read_exact_at B im offset n).0 _
            (read_exact_at-ne-unfinished B patient im offset n)
            (λ buffer _. require-Upholds (H.update hash buffer) _ (λ next _.
              ih (offset + n) next (read_exact_at B im offset n).1
                (omega (arith, more, some_bytes))))

  prefix-IsDigested :
      (im : Image B) (len : ℕ) (out : List ℕ × Image B)
      → prefix H im len ≡ done out
      → (hash : H.State) × (H.new ≡ some hash) × IsDigested (suc len) len 0 hash im out
  unfolding prefix
  prefix-IsDigested im len out e =
      let f = require-done H.new _ out e in
      (f.0, f.1, prefix_loop-IsDigested (suc len) len 0 f.0 im out f.2)

  -- `prefix` ends, and leaves the image as it was.
  pub prefix-Upholds :
      (im : Image B) (len : ℕ) → Upholds (λ out. IsLike L im out.1) (prefix H im len)
  unfolding prefix
  prefix-Upholds im len =
      let u =
        require-Upholds H.new _
          (λ hash _. prefix_loop-Upholds (suc len) len 0 hash im (omega arith)) in
      record {
        kept = u.kept;
        ends = u.ends;
        result = λ out e. (prefix-IsDigested im len out e).2.like;
      }

  -- Two runs over the same bytes, with the same number of them, give the same digest.
  pub prefix_same :
      (im jm : Image B) (len : ℕ) (out end : List ℕ × Image B)
      → ((i : ℕ) → i < len → L.contents im.file i ≡ L.contents jm.file i)
      → prefix H im len ≡ done out
      → prefix H jm len ≡ done end
      → out.0 ≡ end.0
  prefix_same im jm len out end same e f =
      let a = prefix-IsDigested im len out e in
      let b = prefix-IsDigested jm len end f in
      let started : a.0 ≡ b.0 = ground (arith, a.1, b.1) in
      let both =
        digest_of-ext H (L.contents im.file) (L.contents jm.file) (suc len) len 0 b.0 same in
      ground (arith, rw started at a.2.digest, both, b.2.digest)
