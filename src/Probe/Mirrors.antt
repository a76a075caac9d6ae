-- ===== src/Probe/Mirrors.antt =====
-- What `check` of src/probe.rs has seen of a Btrfs volume that it accepts: every copy of the
-- superblock inside the volume, and one commit in all of them.
use winluks.Base.{
  ℕ, ◌+◌, ◌≤◌, ◌≡◌, refl, ap, sym, ◌∙◌, true, false, false, Bool-cases, inl, inr, List, [], ◌∷◌,
  arith, ltb, Bool, ◌<◌, not, ◌||◌, take, drop,
}
use winluks.Base.Contents.{Contents, slice, take-slice, drop-slice}
use winluks.Error.{fs_recovery_required, Result, Outcome, ok, err, panic, unfinished}
use winluks.Probe.Fields.{same_bytes-eq}
use winluks.Probe.Btrfs.{btrfs_at}
use winluks.Probe.{Filesystem, differ, mirrors, check, mirror_loop, after_read, after_check}

-- The copy at `offset` passes the profile and agrees with the first one, but for its checksum
-- (bytes 0 to 31) and its own address (bytes 48 to 55).
pub record IsCopy (crc32c : List ℕ → ℕ) (len : ℕ) (disk : Contents) (offset : ℕ) : Type 0 where
  pub accepted : btrfs_at crc32c (slice disk offset 4096) len offset ≡ ok tt
  pub same_id : slice disk (offset + 32) 16 ≡ slice disk (65536 + 32) 16
  pub same_rest : slice disk (offset + 56) 4040 ≡ slice disk (65536 + 56) 4040

agree :
    (disk : Contents) (o p : ℕ)
    → differ (slice disk o 4096) (slice disk p 4096) ≡ false
    → (slice disk (p + 32) 16 ≡ slice disk (o + 32) 16)
      × (slice disk (p + 56) 4040 ≡ slice disk (o + 56) 4040)
agree disk o p e =
    let same = both _ _ e in
    (
      sym (head p) ∙ sym (same_bytes-eq _ _ same.0) ∙ head o,
      sym (tail p) ∙ sym (same_bytes-eq _ _ same.1) ∙ tail o,
    )
  where
    both : (a b : Bool) → (not a || not b) ≡ false → (a ≡ true) × (b ≡ true)
    both a b h = ground arith

    head : (q : ℕ) → take 16 (drop 32 (slice disk q 4096)) ≡ slice disk (q + 32) 16
    head q =
        ap (take 16) (drop-slice disk q 32 4096 4064 refl)
        ∙ take-slice disk (q + 32) 16 4064 (omega arith)

    tail : (q : ℕ) → drop 56 (slice disk q 4096) ≡ slice disk (q + 56) 4040
    tail q = drop-slice disk q 56 4096 4040 refl

-- Inversion of the two kinds of step.
module _ {S : Type 0} (crc32c : List ℕ → ℕ) (read : S → ℕ → ℕ → Outcome (List ℕ) × S)
    (len : ℕ) where
  after_read-ok :
      (x : Outcome (List ℕ) × S) (next : List ℕ → S → Outcome (Unit {0}) × S)
      → (after_read crc32c read len x next).0 ≡ ok tt
      → (bytes : List ℕ) × (x.0 ≡ ok bytes) × ((next bytes x.1).0 ≡ ok tt)
  after_read-ok (ok bytes, s) next e = (bytes, refl, e)
  after_read-ok (err x, s) next e = absurd (cc)
  after_read-ok (panic, s) next e = absurd (cc)
  after_read-ok (unfinished, s) next e = absurd (cc)

  after_check-ok :
      (c : Result (Unit {0})) (s : S) (next : S → Outcome (Unit {0}) × S)
      → (after_check crc32c read len c s next).0 ≡ ok tt
      → (c ≡ ok tt) × ((next s).0 ≡ ok tt)
  after_check-ok (ok _) s next e = (refl, e)
  after_check-ok (err x) s next e = absurd (cc)

-- A reader of which the bytes that it returns are those of the disk, whatever its state.
module _ {S : Type 0} (crc32c : List ℕ → ℕ) (read : S → ℕ → ℕ → Outcome (List ℕ) × S) (len : ℕ)
    (disk : Contents) (Q : S → Type 0)
    (honest : (s : S) (o n : ℕ) (bytes : List ℕ)
      → Q s
      → (read s o n).0 ≡ ok bytes
      → bytes ≡ slice disk o n)
    (keeps : (s : S) (o n : ℕ) → Q s → Q (read s o n).1) where
  abbrev AllCopies : List ℕ → Type 0
  AllCopies [] = Unit
  AllCopies (o ∷ os) = (o + 4096 ≤ len → IsCopy crc32c len disk o) × AllCopies os

  abbrev AllAbove : ℕ → List ℕ → Type 0
  AllAbove o [] = Unit
  AllAbove o (p ∷ ps) = (o ≤ p) × AllAbove o ps

  abbrev Ascending : List ℕ → Type 0
  Ascending [] = Unit
  Ascending (o ∷ os) = AllAbove o os × Ascending os

  none_inside : (o : ℕ) (os : List ℕ) → len < o + 4096 → AllAbove o os → AllCopies os
  none_inside o [] short up = tt
  none_inside o (p ∷ ps) short up =
      (λ fits. absurd (omega (arith, up.0)), none_inside o ps short up.1)

  IsCopy-of :
      (o : ℕ) (mirror : List ℕ)
      → mirror ≡ slice disk o 4096
      → btrfs_at crc32c mirror len o ≡ ok tt
      → differ (slice disk 65536 4096) mirror ≡ false
      → IsCopy crc32c len disk o
  IsCopy-of o mirror m passed same =
      let copy = agree disk 65536 o (ap (differ (slice disk 65536 4096)) (sym m) ∙ same) in
      record {
        accepted = ap (λ b. btrfs_at crc32c b len o) (sym m) ∙ passed;
        same_id = copy.0;
        same_rest = copy.1;
      }

  mirror_loop-copies :
      (offsets : List ℕ) (s : S)
      → Q s
      → Ascending offsets
      → (mirror_loop crc32c read len (slice disk 65536 4096) offsets s).0 ≡ ok tt
      → AllCopies offsets
  unfolding mirror_loop
  mirror_loop-copies [] s q up e = tt
  mirror_loop-copies (o ∷ os) s q up e = elim (Bool-cases (ltb len (o + 4096))) [
    | inl short ↦ (λ fits. absurd (ground arith), none_inside o os (ground arith) up.0)
    | inr fits ↦
        let got = after_read-ok crc32c read len (read s o 4096) _ (by_size _ _ _ fits e) in
        let passed = after_check-ok crc32c read len _ _ _ got.2 in
        let same = by_difference _ _ _ passed.1 in
        (
          λ _. IsCopy-of o got.0 (honest s o 4096 got.0 q got.1) passed.0 same.0,
          mirror_loop-copies os (read s o 4096).1 (keeps s o 4096 q) up.1 same.1,
        )
  ]
    where
      by_size :
          (b : Bool) (x y : Outcome (Unit {0}) × S)
          → b ≡ false
          → (elim b as (λ _. Outcome (Unit {0}) × S) [ true ↦ x | false ↦ y ]).0 ≡ ok tt
          → y.0 ≡ ok tt
      by_size true x y f e = absurd (cc)
      by_size false x y f e = e

      by_difference :
          (b : Bool) (s : S) (y : Outcome (Unit {0}) × S)
          → (elim b as (λ _. Outcome (Unit {0}) × S) [
            | true ↦ (err fs_recovery_required, s)
            | false ↦ y
          ]).0
            ≡ ok tt
          → (b ≡ false) × (y.0 ≡ ok tt)
      by_difference true s y e = absurd (cc)
      by_difference false s y e = (refl, e)

  -- Over a reader that returns only bytes of a disk, a check as Btrfs that passes has seen a valid
  -- superblock at 64 KiB, and its further copies at 64 MiB and 256 GiB, where they lie inside the
  -- volume, are valid and agree with it.
  pub check-copies :
      (s : S)
      → Q s
      → (check crc32c read len Filesystem.btrfs s).0 ≡ ok tt
      → (btrfs_at crc32c (slice disk 65536 4096) len 65536 ≡ ok tt)
        × (0x4000000 + 4096 ≤ len → IsCopy crc32c len disk 0x4000000)
        × (0x4000000000 + 4096 ≤ len → IsCopy crc32c len disk 0x4000000000)
  unfolding check
  check-copies s q e =
      let got = after_read-ok crc32c read len (read s 65536 4096) _ e in
      let passed = after_check-ok crc32c read len _ _ _ got.2 in
      let primary : got.0 ≡ slice disk 65536 4096 = honest s 65536 4096 got.0 q got.1 in
      let copies =
        mirror_loop-copies mirrors (read s 65536 4096).1 (keeps s 65536 4096 q)
          ((omega arith, tt), (tt, tt))
          (ap (λ p. (mirror_loop crc32c read len p mirrors (read s 65536 4096).1).0) (sym primary)
            ∙ passed.1) in
      (ap (λ b. btrfs_at crc32c b len 65536) (sym primary) ∙ passed.0, copies.0, copies.1.0)
