-- ===== src/Adapter/Windows/Consumer.antt =====
-- `check_consumer` of src/adapter/windows.rs: the driver of the filesystem is the one that was tested.
use winluks.Base.{
  ℕ, ◌+◌, ◌*◌, ◌/◌, ◌%◌, ◌≤◌, ◌≡◌, refl, ap, sym, ◌∙◌, Bool, true, false, List, [], ◌∷◌, ◌++◌, ◌≢◌,
  inl, inr, Bool-cases, String, arith,
}
use winluks.Base.{not, ltb, ◌==◌, ◌!=◌, ◌||◌, Option, none, some, if◌then◌else◌}
use winluks.Base.Contents.{slice}
use winluks.Error.{Result, Outcome, ok, err, panic, unfinished, fs_driver_unavailable}
use winluks.StrictJson.{codes}
use winluks.Image.Os.{Backend, IsFile}
use winluks.Image.Open.{FileSystem, open_windows, Lacks}
use winluks.Image.{Image, AccessMode, is_read_write, read_exact_at}
use winluks.Image.Access.{read_exact_at-slice}
use winluks.Probe.{Filesystem}
use winluks.Probe.Fields.{same_bytes, same_bytes-eq}

-- The native shim and the libraries that the check asks.
pub record Consumer : Type 0 where
  -- `wl_consumer_ready`, of the filesystem and whether it is read-only: the status, and the buffer
  -- with the path of the driver's file
  pub wl_consumer_ready : ℕ → Bool → ℕ × List ℕ
  pub sha256 : List ℕ → List ℕ

abbrev pub filesystem_id : Filesystem → ℕ
filesystem_id Filesystem.btrfs = 0
filesystem_id Filesystem.ext4 = 1

abbrev pub expected_digest : Filesystem → String
expected_digest Filesystem.btrfs =
    "3c46f0f82726e374cec3d2e36defd2c672c68903895a510a29762f6f93866797"
expected_digest Filesystem.ext4 = "06f6b4a6bc7aaf568d0442a3415394b2b7806c1bd94d35b314bebfa0993898d9"

abbrev hex_digit : ℕ → ℕ
hex_digit d = if ltb d 10 then b'0' + d else 87 + d

-- `format!("{b:02x}")` of each byte
abbrev pub hex : List ℕ → List ℕ
hex [] = []
hex (b ∷ bs) = hex_digit (b / 16) ∷ hex_digit (b % 16) ∷ hex bs

-- What stands before the first zero.
unfoldable pub before_zero : List ℕ → Option (List ℕ)
before_zero [] = none
before_zero (c ∷ cs) = elim (c == 0) [
  | true ↦ some []
  | false ↦ elim (before_zero cs) [ none ↦ none | some p ↦ some (c ∷ p) ]
]

-- The path is what stands in the buffer before a zero, and has none itself.
abbrev pub IsTerminated : List ℕ → List ℕ → Type 0
IsTerminated path buffer = (rest : List ℕ) × (buffer ≡ path ++ (0 ∷ rest)) × Lacks 0 path

before_zero-IsTerminated :
    (buffer path : List ℕ) → before_zero buffer ≡ some path → IsTerminated path buffer
unfolding before_zero
before_zero-IsTerminated [] path e = absurd (cc)
before_zero-IsTerminated (c ∷ cs) path e = elim (Bool-cases (c == 0)) [
  | inl zero_here ↦
      let none_left : path ≡ [] = ground (arith, e, zero_here) in
      let here : c ≡ 0 = ground (arith, zero_here) in rw none_left (cs, ap (λ d. d ∷ cs) here, tt)
  | inr other ↦
      by_rest (before_zero-IsTerminated cs) (before_zero cs) refl (ground (arith, e, other))
        (ground (arith, other))
]
  where
    by_rest :
        ((p : List ℕ) → before_zero cs ≡ some p → IsTerminated p cs)
        → (o : Option (List ℕ)) → before_zero cs ≡ o
        → (elim o as (λ _. Option (List ℕ)) [ none ↦ none | some p ↦ some (c ∷ p) ]) ≡ some path
        → c ≢ 0
        → IsTerminated path (c ∷ cs)
    by_rest ih none q f n = absurd (cc)
    by_rest ih (some p) q f n =
        let t = ih p q in
        let same : c ∷ p ≡ path = ground (arith, f) in
        rw (← same) (t.0, ap (λ xs. c ∷ xs) t.1, (n, t.2))

module _ {B : Backend} (F : FileSystem B) (K : Consumer) where
  unfoldable pub check_digest : Filesystem → Outcome (List ℕ) → Outcome (Unit {0})
  check_digest fs (ok bytes) =
      if same_bytes (hex (K.sha256 bytes)) (codes (expected_digest fs))
      then ok tt
      else err fs_driver_unavailable
  check_digest fs (err e) = err fs_driver_unavailable
  check_digest fs panic = panic
  check_digest fs unfinished = unfinished

  unfoldable pub check_image : Filesystem → Result (Image B) → Outcome (Unit {0})
  check_image fs (err e) = err fs_driver_unavailable
  check_image fs (ok im) =
      if im.len == 0 || ltb (16 * 1024 * 1024) im.len
      then err fs_driver_unavailable
      else check_digest fs (read_exact_at B im 0 im.len).0

  -- `Image::open` of a path of wide characters
  abbrev pub open_driver : List ℕ → Result (Image B)
  open_driver path = open_windows F (F.from_utf16 path) AccessMode.read_only

  abbrev pub check_path : Filesystem → Option (List ℕ) → Outcome (Unit {0})
  check_path fs none = err fs_driver_unavailable
  check_path fs (some path) = check_image fs (open_driver path)

  unfoldable pub check_consumer : Filesystem → AccessMode → Outcome (Unit {0})
  check_consumer fs mode =
      let (status, path) = K.wl_consumer_ready (filesystem_id fs) (not (is_read_write mode)) in
      if status != 0 then err fs_driver_unavailable else check_path fs (before_zero path)

module _ {B : Backend} (L : IsFile B) (F : FileSystem B) (K : Consumer) where
  check_digest_lem :
      (fs : Filesystem) (r : Outcome (List ℕ))
      → check_digest F K fs r ≡ ok tt
      → (bytes : List ℕ) × (r ≡ ok bytes) × (hex (K.sha256 bytes) ≡ codes (expected_digest fs))
  unfolding check_digest
  check_digest_lem fs (ok bytes) e = (bytes, refl, same_bytes-eq _ _ (ground arith))
  check_digest_lem fs (err x) e = absurd (cc)
  check_digest_lem fs panic e = absurd (cc)
  check_digest_lem fs unfinished e = absurd (cc)

  -- The file of the driver that is at work.
  pub record IsTested (fs : Filesystem) (im : Image B) : Type 0 where
    pub small : im.len ≤ 16 * 1024 * 1024
    pub tested : hex (K.sha256 (slice (L.contents im.file) 0 im.len)) ≡ codes (expected_digest fs)

  check_image-IsTested :
      (fs : Filesystem) (r : Result (Image B))
      → check_image F K fs r ≡ ok tt
      → (im : Image B) × (r ≡ ok im) × IsTested fs im
  unfolding check_image
  check_image-IsTested fs (err x) e = absurd (cc)
  check_image-IsTested fs (ok im) e =
      let d = check_digest_lem fs (read_exact_at B im 0 im.len).0 (ground arith) in
      let whole : d.0 ≡ slice (L.contents im.file) 0 im.len =
        read_exact_at-slice B L im 0 im.len d.0 d.1 in
      (
        im,
        refl,
        record { small = ground arith; tested = ap (λ b. hex (K.sha256 b)) (sym whole) ∙ d.2 },
      )

  -- The check of the consumer passes only where the shim answers for this filesystem and mode with
  -- status 0, and the image opened read-only at the path that the shim put into its buffer before
  -- the first zero has at most 16 MiB, of which the whole contents have the expected SHA-256
  -- digest, if the backend behaves as a file.
  pub check_consumer-IsTested :
      (fs : Filesystem) (mode : AccessMode)
      → check_consumer F K fs mode ≡ ok tt
      → let answer = K.wl_consumer_ready (filesystem_id fs) (not (is_read_write mode)) in
        (answer.0 ≡ 0)
        × ((path : List ℕ) × (im : Image B) × IsTerminated path answer.1
            × (open_windows F (F.from_utf16 path) AccessMode.read_only ≡ ok im)
            × IsTested fs im)
  unfolding check_consumer
  check_consumer-IsTested fs mode e =
      let answer = K.wl_consumer_ready (filesystem_id fs) (not (is_read_write mode)) in
      (ground arith, by_path (before_zero answer.1) refl (ground arith))
    where
      by_path :
          (o : Option (List ℕ))
          → before_zero (K.wl_consumer_ready (filesystem_id fs) (not (is_read_write mode))).1 ≡ o
          → check_path F K fs o ≡ ok tt
          → (path : List ℕ) × (im : Image B) × IsTerminated path
              (K.wl_consumer_ready (filesystem_id fs) (not (is_read_write mode))).1
            × (open_windows F (F.from_utf16 path) AccessMode.read_only ≡ ok im)
            × IsTested fs im
      by_path none p q = absurd (cc)
      by_path (some path) p q =
          let t = check_image-IsTested fs (open_driver F K path) q in
          (path, t.0, before_zero-IsTerminated _ path p, t.1, t.2)
