-- ===== src/Adapter/Disk.antt =====
-- The disk that an adapter of src/adapter.rs holds, and that its operations keep.
use winluks.Base.{ℕ, ◌*◌, ◌≡◌, ◌⊎◌, inl, inr, ap, List, arith}
use winluks.Base.Contents.{Contents, slice, overwrite}
use winluks.Error.{Outcome, ok, err, panic, unfinished, stopping, invalid_range, Error}
use winluks.Image.Os.{Backend, IsFile, IsPatient}
use winluks.Image.Access.{sync-contents}
use winluks.Crypto.Primitives.{Libraries, IsCipher}
use winluks.Volume
use winluks.Volume.{UnlockedVolume, read_at, write_at, flush_locked}
use winluks.Volume.Payload.{IsPlaced, Shows, IsPlaced-SameSession, Shows-same}
use winluks.Volume.Frame.{read_at-SameSession, write_at-SameSession, flush-SameSession}
use winluks.Volume.Faults.{IsBroken, read_at_broken, write_at-IsBroken, flush_broken}
use winluks.Volume.Faults.{write_at_unacknowledged}
use winluks.Volume.Totality.{write_at-ne-unfinished}
use winluks.Volume.Reads.{read_at-slice, read_at-contents}
use winluks.Volume.Writes.{write_at-Shows}
use winluks.Adapter
use winluks.Adapter.{BlockAdapter, inner}

module _ (B : Backend) (L : IsFile B) (patient : IsPatient B) (P : Libraries) (C : IsCipher P) where
  -- The volume shows the disk, or the session is broken and acknowledges nothing any more.
  pub record Holds (v : UnlockedVolume B) (disk : Contents) : Type 0 where
    pub placed : IsPlaced v
    pub state : Shows L P v disk ⊎ IsBroken v

  pub read_at-Holds :
      (v : UnlockedVolume B) (disk : Contents) (offset len : ℕ)
      → Holds v disk
      → Holds (read_at B P v offset len).1 disk
  read_at-Holds v disk offset len h = record {
    placed = IsPlaced-SameSession B v _ (read_at-SameSession B P v offset len) h.placed;
    state = elim h.state [
      | inl shows ↦ inl (
          Shows-same B L P disk v _ (read_at-SameSession B P v offset len)
            (read_at-contents B L P v offset len) shows)
      | inr b ↦ inr (record { broken = inl (read_at_broken B P v b offset len).1 })
    ];
  }

  pub read_at_honest :
      (v : UnlockedVolume B) (disk : Contents) (offset len : ℕ) (bytes : List ℕ)
      → Holds v disk
      → (read_at B P v offset len).0 ≡ ok bytes
      → bytes ≡ slice disk offset len
  read_at_honest v disk offset len bytes h e = elim h.state [
    | inl shows ↦ read_at-slice B L P v disk h.placed shows offset len bytes e
    | inr b ↦ absurd (cc (read_at_broken B P v b offset len).0)
  ]

  pub write_at-Holds :
      (v : UnlockedVolume B) (disk : Contents) (offset : ℕ) (bytes : List ℕ)
      (r : Outcome (Unit {0}))
      → Holds v disk
      → (write_at B P v offset bytes).0 ≡ r
      → Holds
          (write_at B P v offset bytes).1
          (elim r [ ok _ ↦ overwrite disk offset bytes | _ ↦ disk ])
  write_at-Holds v disk offset bytes (ok t) h e = record {
    placed = IsPlaced-SameSession B v _ (write_at-SameSession B P v offset bytes) h.placed;
    state = elim h.state [
      | inl shows ↦ inl (write_at-Shows B L P C v disk h.placed shows offset bytes e)
      | inr b ↦ absurd ((write_at-IsBroken B P v b offset bytes).0 e)
    ];
  }
  write_at-Holds v disk offset bytes r h e = record {
    placed = IsPlaced-SameSession B v _ (write_at-SameSession B P v offset bytes) h.placed;
    state = elim h.state [
      | inl shows ↦
          elim (write_at_unacknowledged B P v offset bytes (λ k. cc)
            (write_at-ne-unfinished B patient P v offset bytes)) [
              | inl same ↦ inl (
                  Shows-same B L P disk v _ (write_at-SameSession B P v offset bytes)
                    (λ i. ap (λ im. L.contents im.file i) same) shows)
              | inr (inl f) ↦ inr (record { broken = inl f })
              | inr (inr p) ↦ inr (record { broken = inr p })
            ]
      | inr b ↦ inr (write_at-IsBroken B P v b offset bytes).1
    ];
  }

  pub flush-contents :
      (v : UnlockedVolume B) (i : ℕ)
      → L.contents (Volume.flush B v).1.image.file i ≡ L.contents v.image.file i
  unfolding Volume.flush flush_locked
  flush-contents v i = ground (arith, sync-contents B L v.image i)

  pub volume_flush-Holds :
      (v : UnlockedVolume B) (disk : Contents) → Holds v disk → Holds (Volume.flush B v).1 disk
  volume_flush-Holds v disk h = record {
    placed = IsPlaced-SameSession B v _ (flush-SameSession B P v) h.placed;
    state = elim h.state [
      | inl shows ↦
          inl (Shows-same B L P disk v _ (flush-SameSession B P v) (flush-contents v) shows)
      | inr b ↦ inr (record { broken = inl (flush_broken B P v b).1 })
    ];
  }

  -- Each command is either refused, with the volume as it was, or handed to the volume.
  pub read-cases :
      (a : BlockAdapter B) (lba count : ℕ)
      → let r = Adapter.read B P a lba count in
        let call = read_at B P (inner B a) (lba * 512) (count * 512) in
        (((r.0 ≡ err stopping) ⊎ (r.0 ≡ err invalid_range)) × (inner B r.1 ≡ inner B a))
        ⊎ ((r.0 ≡ call.0) × (inner B r.1 ≡ call.1))
  unfolding Adapter.read
  read-cases a lba count = ground arith

  pub write-cases :
      (a : BlockAdapter B) (lba : ℕ) (bytes : List ℕ)
      → let r = Adapter.write B P a lba bytes in
        let call = write_at B P (inner B a) (lba * 512) bytes in
        (((r.0 ≡ err stopping) ⊎ (r.0 ≡ err invalid_range) ⊎ (r.0 ≡ err Error.read_only))
          × (inner B r.1 ≡ inner B a))
        ⊎ ((r.0 ≡ call.0) × (inner B r.1 ≡ call.1))
  unfolding Adapter.write
  write-cases a lba bytes = ground arith

  pub flush-cases :
      (a : BlockAdapter B) (lba count : ℕ)
      → let r = Adapter.flush B a lba count in
        (inner B r.1 ≡ inner B a) ⊎ (inner B r.1 ≡ (Volume.flush B (inner B a)).1)
  unfolding Adapter.flush
  flush-cases a lba count = ground arith

  pub read-Holds :
      (a : BlockAdapter B) (disk : Contents) (lba count : ℕ)
      → Holds (inner B a) disk
      → Holds (inner B (Adapter.read B P a lba count).1) disk
  read-Holds a disk lba count h = elim (read-cases a lba count) [
    | inl refused ↦ rw refused.1 h
    | inr handed ↦ rw handed.1 (read_at-Holds (inner B a) disk (lba * 512) (count * 512) h)
  ]

  pub read_honest :
      (a : BlockAdapter B) (disk : Contents) (lba count : ℕ) (bytes : List ℕ)
      → Holds (inner B a) disk
      → (Adapter.read B P a lba count).0 ≡ ok bytes
      → bytes ≡ slice disk (lba * 512) (count * 512)
  read_honest a disk lba count bytes h e = elim (read-cases a lba count) [
    | inl refused ↦ absurd (ground arith)
    | inr handed ↦ read_at_honest (inner B a) disk (lba * 512) (count * 512) bytes h (cc)
  ]

  pub write-Holds :
      (a : BlockAdapter B) (disk : Contents) (lba : ℕ) (bytes : List ℕ) (r : Outcome (Unit {0}))
      → Holds (inner B a) disk
      → (Adapter.write B P a lba bytes).0 ≡ r
      → Holds
          (inner B (Adapter.write B P a lba bytes).1)
          (elim r [ ok _ ↦ overwrite disk (lba * 512) bytes | _ ↦ disk ])
  write-Holds a disk lba bytes r h e = elim (write-cases a lba bytes) [
    | inl refused ↦ rw refused.1 (by_refusal r e refused.0)
    | inr handed ↦ rw handed.1 (write_at-Holds (inner B a) disk (lba * 512) bytes r h (cc))
  ]
    where
      by_refusal :
          (r : Outcome (Unit {0}))
          → (Adapter.write B P a lba bytes).0 ≡ r
          → ((Adapter.write B P a lba bytes).0 ≡ err stopping)
            ⊎ ((Adapter.write B P a lba bytes).0 ≡ err invalid_range)
            ⊎ ((Adapter.write B P a lba bytes).0 ≡ err Error.read_only)
          → Holds (inner B a) (elim r [ ok _ ↦ overwrite disk (lba * 512) bytes | _ ↦ disk ])
      by_refusal (ok t) e q = absurd (ground arith)
      by_refusal (err x) e q = h
      by_refusal panic e q = h
      by_refusal unfinished e q = h

  pub flush-Holds :
      (a : BlockAdapter B) (disk : Contents) (lba count : ℕ)
      → Holds (inner B a) disk
      → Holds (inner B (Adapter.flush B a lba count).1) disk
  flush-Holds a disk lba count h = elim (flush-cases a lba count) [
    | inl same ↦ rw same h
    | inr handed ↦ rw handed (volume_flush-Holds (inner B a) disk h)
  ]
