-- ===== src/Crypto/KeyPage.antt =====
-- The page of memory behind `VolumeKey` of src/crypto.rs: what it holds, and how it is given back.
use Prim.Native.Nat.{zero, suc}
use winluks.Base.{ap, ℕ, ◌≤◌, ◌≡◌, refl, Bool, false, List, [], ◌∷◌, ◌++◌, not, arith}
use winluks.Base.{
  if◌then◌else◌, length, take, drop, replicate, take-append, length-append, length-drop,
  length-replicate, Bool-cases, inl, inr,
}
use winluks.Error.{Result, ok, ◌>>◌, reject_if, reject_if-ok, crypto, resource_limit}
use winluks.Crypto.{new_volume_key, not_key_size}

abbrev pub page_size : ℕ
page_size = 4096

-- The fields of `VolumeKey`, with the page that `ptr` points to.
pub record KeyPage : Type 0 where
  pub page : List ℕ
  pub size : ℕ
  pub locked : Bool

-- `ptr::copy_nonoverlapping` to the start of a page
abbrev pub copy_to : List ℕ → List ℕ → List ℕ
copy_to bytes page = bytes ++ drop (length bytes) page

-- `VolumeKey::new`: whether the allocation succeeds, and whether the page can be locked.
unfoldable pub new_page : Bool → Bool → List ℕ → Result KeyPage
new_page allocated locked bytes = do
  reject_if (not_key_size (length bytes)) crypto
  reject_if (not allocated) resource_limit
  ok (record { page = copy_to bytes (replicate page_size 0); size = length bytes; locked = locked })

-- `VolumeKey::bytes`
abbrev pub key_bytes : KeyPage → List ℕ
key_bytes k = take k.size k.page

-- The system calls of `Drop`.
pub data Release : Type 0 where
  unlock_page dealloc : Release

-- `zeroize` of the whole page
abbrev pub wiped : List ℕ → List ℕ
wiped page = replicate page_size 0 ++ drop page_size page

-- `Drop`: each call with the page as it finds it.
unfoldable pub drop_page : KeyPage → List (Release × List ℕ)
drop_page k =
    let page = wiped k.page in
    if k.locked then (unlock_page, page) ∷ (dealloc, page) ∷ [] else (dealloc, page) ∷ []

-- Every call finds zeros only.
abbrev pub AllWiped : List (Release × List ℕ) → Type 0
AllWiped [] = Unit
AllWiped ((r, page) ∷ rs) = (page ≡ replicate page_size 0) × AllWiped rs

drop-all : (n : ℕ) (xs : List ℕ) → length xs ≤ n → drop n xs ≡ []
drop-all zero [] h = refl
drop-all zero (x ∷ xs) h = absurd (omega arith)
drop-all (suc n) [] h = refl
drop-all (suc n) (x ∷ xs) h = drop-all n xs (omega arith)

append-nil : (xs : List ℕ) → xs ++ [] ≡ xs
append-nil [] = refl
append-nil (x ∷ xs) = ap (λ r. x ∷ r) (append-nil xs)

wiped_all : (page : List ℕ) → length page ≤ page_size → wiped page ≡ replicate page_size 0
wiped_all page h = rw (drop-all page_size page h) (append-nil (replicate page_size 0))

length-copy_to :
    (bytes page : List ℕ) → length bytes ≤ length page → length (copy_to bytes page) ≡ length page
length-copy_to bytes page h =
    omega (arith, length-append bytes (drop (length bytes) page), length-drop (length bytes) page)

drop_page-AllWiped : (k : KeyPage) → length k.page ≤ page_size → AllWiped (drop_page k)
unfolding drop_page
drop_page-AllWiped k h = elim (Bool-cases k.locked) [
  | inl held ↦ rw held (wiped_all k.page h, (wiped_all k.page h, tt))
  | inr loose ↦ rw loose (wiped_all k.page h, tt)
]

key_size_small : (n : ℕ) → not_key_size n ≡ false → n ≤ page_size
key_size_small n e = ground arith

-- A key page that is made holds the key that an unlocked volume works with, and when it is given
-- back, each call of the system that releases it finds zeros in the whole page.
pub new_page-AllWiped :
    (allocated locked : Bool) (bytes : List ℕ) (k : KeyPage)
    → new_page allocated locked bytes ≡ ok k
    → (new_volume_key allocated locked bytes
        ≡ ok (record { bytes = key_bytes k; locked = k.locked }))
      × AllWiped (drop_page k)
unfolding new_page new_volume_key
new_page-AllWiped allocated locked bytes k e =
    let sized = reject_if-ok (not_key_size (length bytes)) crypto _ e in
    let given = reject_if-ok (not allocated) resource_limit _ sized.1 in
    let blank = replicate page_size 0 in
    let made : KeyPage = record {
      page = copy_to bytes blank;
      size = length bytes;
      locked = locked;
    } in
    let same : made ≡ k = cc (given.1) in
    let small = key_size_small (length bytes) sized.0 in
    let whole : length blank ≡ page_size = length-replicate {A = ℕ} page_size 0 in
    let full = length-copy_to bytes blank (omega (arith, small, whole)) in
    rw (← same) (
      rw (sized.0, given.0, take-append (length bytes) bytes (drop (length bytes) blank) refl) refl,
      drop_page-AllWiped made (omega (arith, full, whole)),
    )
