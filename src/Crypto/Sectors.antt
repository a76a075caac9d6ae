-- ===== src/Crypto/Sectors.antt =====
-- `crypt_sectors` of src/crypto.rs, sector by sector.
use winluks.Base.{
  ℕ, zero, suc, ◌+◌, ◌*◌, ◌/◌, ◌≤◌, ◌<◌, ◌≡◌, refl, List, [], ◌∷◌, ◌++◌, some, none, Option, sym,
  ap, ◌∙◌, arith,
}
use winluks.Base.{
  length, take, drop, take-append-drop, take-append, drop-append, drop-drop, length-append,
  length-take, length-drop,
}
use winluks.Base.Contents.{Contents, slice, take-slice, drop-slice, length-slice, slice-append}
use winluks.Base.Words.{u64_size}
use winluks.Error.{Result, ok, err}
use winluks.Crypto.Primitives.{Direction, encrypt, decrypt, Libraries, IsCipher}
use winluks.Crypto.{sector_iv, crypt_loop, crypt_sectors, decrypt_sectors, encrypt_sectors}

module _ (P : Libraries) (dir : Direction) (key : List ℕ) (first : ℕ) where
  pub crypt_loop-length :
      (left i : ℕ) (text out : List ℕ)
      → crypt_loop P dir key first left i text ≡ ok out
      → length out ≡ 512 * left
  unfolding crypt_loop
  crypt_loop-length zero i text out e = ground arith
  crypt_loop-length (suc left) i text out e =
      grind (arith, length-append {0}, crypt_loop-length left)

  -- What a round that ends well has done.
  record Round (left i : ℕ) (text out : List ℕ) : Type 0 where
    sector : List ℕ
    more : List ℕ
    crypted : P.xts dir key (sector_iv (first + i)) (take 512 text) ≡ some sector
    full : length sector ≡ 512
    numbered : first + i < u64_size
    rest : crypt_loop P dir key first left (i + 1) (drop 512 text) ≡ ok more
    joined : out ≡ sector ++ more

  crypt_loop-Round :
      (left i : ℕ) (text out : List ℕ)
      → crypt_loop P dir key first (suc left) i text ≡ ok out
      → Round left i text out
  unfolding crypt_loop
  crypt_loop-Round left i text out e =
      by_parts (P.xts dir key (sector_iv (first + i)) (take 512 text)) refl
        (crypt_loop P dir key first left (i + 1) (drop 512 text)) refl
    where
      by_parts :
          (s : Option (List ℕ))
          → P.xts dir key (sector_iv (first + i)) (take 512 text) ≡ s
          → (r : Result (List ℕ)) → crypt_loop P dir key first left (i + 1) (drop 512 text) ≡ r
          → Round left i text out
      by_parts (some s) p (ok m) q = record {
        sector = s;
        more = m;
        crypted = p;
        full = ground arith;
        numbered = ground arith;
        rest = q;
        joined = ground arith;
      }
      by_parts none p r q = absurd (ground arith)
      by_parts (some s) p (err x) q = absurd (ground arith)

  crypt_loop-step :
      (left i : ℕ) (text sector more : List ℕ)
      → first + i < u64_size
      → P.xts dir key (sector_iv (first + i)) (take 512 text) ≡ some sector
      → length sector ≡ 512
      → crypt_loop P dir key first left (i + 1) (drop 512 text) ≡ ok more
      → crypt_loop P dir key first (suc left) i text ≡ ok (sector ++ more)
  unfolding crypt_loop
  crypt_loop-step left i text sector more h p q r = ground arith

  -- Each sector of the result is the cipher's image of that sector of the text.
  pub crypt_loop-sector :
      (left i j : ℕ) (text out : List ℕ)
      → j < left
      → crypt_loop P dir key first left i text ≡ ok out
      → P.xts dir key (sector_iv (first + (i + j))) (take 512 (drop (512 * j) text))
        ≡ some (take 512 (drop (512 * j) out))
  crypt_loop-sector zero i j text out h e = elim h [ ]
  crypt_loop-sector (suc left) i zero text out h e =
      let r = crypt_loop-Round left i text out e in
      let at : i + 0 ≡ i = omega arith in
      rw (at, r.joined) (r.crypted ∙ ap some (sym (take-append 512 r.sector r.more r.full)))
  crypt_loop-sector (suc left) i (suc j) text out h e =
      let r = crypt_loop-Round left i text out e in
      let at : i + suc j ≡ i + 1 + j = omega arith in
      rw
        (
          at,
          r.joined,
          ← drop-drop 512 (512 * j) (512 * suc j) text (omega arith),
          drop-append 512 (512 * j) (512 * suc j) r.sector r.more r.full (omega arith),
        )
        (crypt_loop-sector left (i + 1) j (drop 512 text) r.more (omega arith) r.rest)

  -- Where the cipher maps each sector of `c` to that of `d`, the loop maps the slices.
  pub crypt_loop-slice :
      (c d : Contents) (base o left i : ℕ)
      → ((j : ℕ)
          → i ≤ j
          → j < i + left
          → P.xts dir key (sector_iv (first + j)) (slice c (base + 512 * j) 512)
            ≡ some (slice d (o + 512 * j) 512))
      → first + i + left ≤ u64_size
      → crypt_loop P dir key first left i (slice c (base + 512 * i) (512 * left))
        ≡ ok (slice d (o + 512 * i) (512 * left))
  unfolding crypt_loop
  crypt_loop-slice c d base o zero i h fits = unfold slice in refl
  crypt_loop-slice c d base o (suc left) i h fits = ground (
    arith,
    h i (omega arith) (omega arith),
    take-slice c (base + 512 * i) 512 (512 * suc left) (omega arith),
    drop-slice c (base + 512 * i) 512 (512 * suc left) (512 * left) (omega arith),
    here,
    length-slice d (o + 512 * i) 512,
    slice-append d (o + 512 * i) 512 (512 * left) (512 * suc left) (omega arith),
    there,
    crypt_loop-slice c d base o left (i + 1) (λ j p q. h j (omega arith) (omega arith))
        (omega arith),
  )
    where
      here : base + 512 * i + 512 ≡ base + 512 * (i + 1)
      here = omega arith

      there : o + 512 * i + 512 ≡ o + 512 * (i + 1)
      there = omega arith

module _ (P : Libraries) (key : List ℕ) (first : ℕ) where
  pub length-crypt_sectors :
      (dir : Direction) (text out : List ℕ)
      → crypt_sectors P dir key first text ≡ ok out
      → length out ≡ length text
  unfolding crypt_sectors
  length-crypt_sectors dir text out e =
      ground (arith, crypt_loop-length P dir key first (length text / 512) 0 text out)

module _ (P : Libraries) (C : IsCipher P) (key : List ℕ) (first : ℕ) where
  crypt_loop-undo :
      (left i : ℕ) (text out : List ℕ)
      → length text ≡ 512 * left
      → crypt_loop P encrypt key first left i text ≡ ok out
      → crypt_loop P decrypt key first left i out ≡ ok text
  crypt_loop-undo zero i [] out size e = unfold crypt_loop in refl
  crypt_loop-undo zero i (x ∷ text) out size e = absurd (omega arith)
  crypt_loop-undo (suc left) i text out size e =
      let r = crypt_loop-Round P encrypt key first left i text out e in
      let back =
        crypt_loop-undo left (i + 1) (drop 512 text) r.more (omega (arith, length-drop 512 text))
          r.rest in
      let head = take-append 512 r.sector r.more r.full in
      let tail = drop-append 512 0 512 r.sector r.more r.full refl in
      rw r.joined (
        crypt_loop-step P decrypt key first left i (r.sector ++ r.more) (take 512 text)
          (drop 512 text) r.numbered
          (rw head
            (C.decrypt-encrypt key (sector_iv (first + i)) (take 512 text) r.sector r.crypted))
          (omega (arith, length-take 512 text)) (rw tail back)
        ∙ ap ok (take-append-drop 512 text))

  -- Decrypting what was encrypted under the same key from the same first sector gives the text
  -- back, if the cipher does so for one sector under one IV.
  pub decrypt_sectors-encrypt_sectors :
      (text out : List ℕ)
      → encrypt_sectors P key first text ≡ ok out
      → decrypt_sectors P key first out ≡ ok text
  unfolding crypt_sectors
  decrypt_sectors-encrypt_sectors text out e = ground (
    arith,
    crypt_loop-undo (length text / 512) 0 text out,
    crypt_loop-length P encrypt key first (length text / 512) 0 text out,
  )

module _ (P : Libraries) (dir : Direction) (key : List ℕ) (c d : Contents)
    (base first count : ℕ) where
  -- Where the cipher maps each numbered sector of one disk to that of another, a run of sectors of
  -- the first is mapped to the same run of the second, if the numbers of the sectors are 64-bit
  -- and the call succeeds.
  pub crypt_sectors-slice :
      ((j : ℕ)
        → first ≤ j
        → j < first + count
        → P.xts dir key (sector_iv j) (slice c (base + 512 * j) 512) ≡ some (slice d (512 * j) 512))
      → first + count ≤ u64_size
      → (out : List ℕ)
      → crypt_sectors P dir key first (slice c (base + 512 * first) (512 * count)) ≡ ok out
      → out ≡ slice d (512 * first) (512 * count)
  unfolding crypt_sectors
  crypt_sectors-slice h fits out e =
      ground (arith, loop, length-slice c (base + 512 * first) (512 * count), whole)
    where
      whole : 512 * count / 512 ≡ count
      whole = omega arith

      from : base + 512 * first + 512 * 0 ≡ base + 512 * first
      from = omega arith

      to : 512 * first + 512 * 0 ≡ 512 * first
      to = omega arith

      at : (j : ℕ) → base + 512 * first + 512 * j ≡ base + 512 * (first + j)
      at j = omega arith

      at' : (j : ℕ) → 512 * first + 512 * j ≡ 512 * (first + j)
      at' j = omega arith

      loop :
          crypt_loop P dir key first count 0 (slice c (base + 512 * first) (512 * count))
          ≡ ok (slice d (512 * first) (512 * count))
      loop = cc (
        from,
        to,
        crypt_loop-slice P dir key first c d (base + 512 * first) (512 * first) count 0
            (λ j _ q. rw (at j, at' j) (h (first + j) (omega arith) (omega arith))) (omega arith),
      )
