-- ===== src/Volume.antt =====
-- src/volume.rs: the unlocked volume, its decrypting reads and its acknowledged writes.
pub mod Payload
pub mod Faults
pub mod Frame
pub mod Reads
pub mod Writes
pub mod Totality
pub mod Validate
pub mod Unlock
pub mod Unlocked
pub mod Plain
pub mod Sizes
pub mod Endings
pub mod Ready
pub mod Origin
use winluks.Base.{ℕ, ◌+◌, ◌-◌, ◌*◌, ◌/◌, Bool, true, false, List, [], not, ltb, ◌==◌, ◌||◌}
use winluks.Base.{Option, none, some, if◌then◌else◌, length, take, drop, leb}
use winluks.Base.Words.{checked_add, is_multiple_of}
use winluks.Error.{
  Error, invalid_range, writeback_failed, Result, Outcome, ok, err, panic, unfinished,
}
use winluks.Image.Os.{Backend}
use winluks.Image.{Image, is_read_write, read_exact_at, write_all_at, AccessMode}
use winluks.Image
use winluks.Crypto.Primitives.{Libraries}
use winluks.Crypto.{VolumeKey, decrypt_sectors, encrypt_sectors}
use winluks.Probe.{Filesystem}
use winluks.Probe

abbrev pub max_transfer : ℕ
max_transfer = 1024 * 1024

-- `io` is the mutex, of which only the poisoning outlives a call.
pub record UnlockedVolume (B : Backend) : Type 0 where
  pub image : Image B
  pub offset : ℕ
  pub len : ℕ
  pub key : VolumeKey
  pub poisoned : Bool
  pub faulted : Bool

pub record ValidatedVolume (B : Backend) : Type 0 where
  pub volume : UnlockedVolume B
  pub filesystem : Filesystem

-- `checked_range`: true where it reports `InvalidRange`.
unfoldable pub out_of_range : ℕ → ℕ → ℕ → Bool
out_of_range total offset len = ltb max_transfer len || ltb total offset || ltb (total - offset) len

-- The end of a request, rounded up to the next sector.
abbrev pub sector_end : ℕ → ℕ → Option ℕ
sector_end offset len = elim (checked_add offset len) [
  | none ↦ none
  | some e ↦ elim (checked_add e 511) [ none ↦ none | some up ↦ some (up / 512 * 512) ]
]

abbrev pub is_panic {ℓ} : {A : Type ℓ} → Outcome A → Bool
is_panic panic = true
is_panic _ = false

module _ (B : Backend) where
  -- A call under the lock. A panic inside it poisons the lock, and a poisoned lock faults.
  abbrev pub locked :
      {A : Type 0}
      → UnlockedVolume B
      → (UnlockedVolume B → Outcome A × UnlockedVolume B)
      → Outcome A × UnlockedVolume B
  locked v body =
      if v.poisoned
      then (err writeback_failed, record v { faulted = true })
      else (let (r, w) = body v in (r, if is_panic r then record w { poisoned = true } else w))

  abbrev pub fault : UnlockedVolume B → UnlockedVolume B
  fault v = record v { faulted = true }

  -- `plain[start..start + len]`, which panics out of bounds.
  abbrev cut : Result (List ℕ) → ℕ → ℕ → Outcome (List ℕ)
  cut (err e) start len = err e
  cut (ok plain) start len =
      if leb (start + len) (length plain) then ok (take len (drop start plain)) else panic

  module _ (P : Libraries) where
    -- The backend read of `read_at`, at `place`, and the decryption.
    unfoldable pub read_sectors :
        UnlockedVolume B → ℕ → ℕ → ℕ → ℕ → ℕ → Outcome (List ℕ) × UnlockedVolume B
    read_sectors v offset len start size place =
        let (r, im) = read_exact_at B v.image place size in
        let w : UnlockedVolume B = record v { image = im } in
        elim r [
          | err e ↦
              if is_read_write v.image.mode then (err writeback_failed, fault w) else (err e, w)
          | panic ↦ (panic, w)
          | unfinished ↦ (unfinished, w)
          | ok encrypted ↦
              (cut (decrypt_sectors P v.key.bytes (start / 512) encrypted) (offset - start) len, w)
        ]

    unfoldable pub read_locked : ℕ → ℕ → UnlockedVolume B → Outcome (List ℕ) × UnlockedVolume B
    read_locked offset len v =
        let start = offset / 512 * 512 in
        if v.faulted
        then (err writeback_failed, v)
        else if out_of_range v.len offset len
        then (err invalid_range, v)
        else if len == 0
        then (ok [], v)
        else (elim (sector_end offset len) [
          | none ↦ (err invalid_range, v)
          | some stop ↦
              if ltb max_transfer (stop - start)
              then (err invalid_range, v)
              else (elim (checked_add v.offset start) [
                | none ↦ (err invalid_range, v)
                | some place ↦ read_sectors v offset len start (stop - start) place
              ])
        ])

    unfoldable pub read_at : UnlockedVolume B → ℕ → ℕ → Outcome (List ℕ) × UnlockedVolume B
    read_at v offset len = locked v (read_locked offset len)

    -- `write_all_at(target, &encrypted).and_then(|_| sync()).is_err()`
    unfoldable pub store : UnlockedVolume B → ℕ → List ℕ → Outcome (Unit {0}) × UnlockedVolume B
    store v target encrypted =
        let (r, im) = write_all_at B v.image target encrypted in
        let w : UnlockedVolume B = record v { image = im } in
        elim r [
          | err e ↦ (err writeback_failed, fault w)
          | panic ↦ (panic, w)
          | unfinished ↦ (unfinished, w)
          | ok _ ↦
              let (s, jm) = Image.sync B im in
              let u : UnlockedVolume B = record v { image = jm } in
              elim s [
                | err e ↦ (err writeback_failed, fault u)
                | panic ↦ (panic, u)
                | unfinished ↦ (unfinished, u)
                | ok _ ↦ (ok tt, u)
              ]
        ]

    unfoldable pub write_locked :
        ℕ → List ℕ → UnlockedVolume B → Outcome (Unit {0}) × UnlockedVolume B
    write_locked offset plaintext v =
        if v.faulted
        then (err writeback_failed, v)
        else if length plaintext == 0
        then (ok tt, v)
        else (elim (encrypt_sectors P v.key.bytes (offset / 512) plaintext) [
          | err e ↦ (err e, v)
          | ok encrypted ↦ elim (checked_add v.offset offset) [
            | none ↦ (err invalid_range, v)
            | some target ↦ store v target encrypted
          ]
        ])

    unfoldable pub write_at : UnlockedVolume B → ℕ → List ℕ → Outcome (Unit {0}) × UnlockedVolume B
    write_at v offset plaintext =
        if not (is_read_write v.image.mode)
        then (err Error.read_only, v)
        else if out_of_range v.len offset (length plaintext)
        then (err invalid_range, v)
        else if not (is_multiple_of offset 512) || not (is_multiple_of (length plaintext) 512)
        then (err invalid_range, v)
        else locked v (write_locked offset plaintext)

  unfoldable pub flush_locked : UnlockedVolume B → Outcome (Unit {0}) × UnlockedVolume B
  flush_locked v =
      let (r, im) = Image.sync B v.image in
      let w : UnlockedVolume B = record v { image = im } in
      if v.faulted then (err writeback_failed, v) else (elim r [
        | err e ↦ (err writeback_failed, fault w)
        | panic ↦ (panic, w)
        | unfinished ↦ (unfinished, w)
        | ok _ ↦ (ok tt, w)
      ])

  unfoldable pub flush : UnlockedVolume B → Outcome (Unit {0}) × UnlockedVolume B
  flush v = locked v flush_locked

  -- `validate`: the volume is kept with its filesystem, or given up.
  unfoldable pub validate :
      Libraries
      → (List ℕ → ℕ)
      → UnlockedVolume B
      → Filesystem
      → Outcome (ValidatedVolume B) × UnlockedVolume B
  validate P crc32c v filesystem =
      let (r, w) = Probe.check crc32c (read_at P) v.len filesystem v in
      elim r [
        | ok _ ↦ (ok (record { volume = w; filesystem = filesystem }), w)
        | err e ↦ (err e, w)
        | panic ↦ (panic, w)
        | unfinished ↦ (unfinished, w)
      ]
