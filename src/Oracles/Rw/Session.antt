-- ===== src/Oracles/Rw/Session.antt =====
-- The commands of examples/rw_oracle.rs on the adapter: what each leaves as it was.
use winluks.Base.{ℕ, ◌*◌, ◌<◌, ◌≡◌, inl, inr, refl, ◌∙◌, sym, false, List, arith}
use winluks.Base.{length}
use winluks.Base.Contents.{Contents, overwrite, slice-overwrite_self}
use winluks.Error.{ok}
use winluks.Image.Os.{Backend, IsFile, IsPatient}
use winluks.Image.{AccessMode}
use winluks.Crypto.Primitives.{Libraries, IsCipher}
use winluks.Volume
use winluks.Volume.{UnlockedVolume, read_at, write_at, out_of_range, flush_locked}
use winluks.Volume.Frame.{
  SameSession, SameSession-refl, SameSession-trans, read_at-SameSession, write_at-SameSession,
  flush-SameSession,
}
use winluks.Volume.Reads.{read_at-contents}
use winluks.Volume.Writes.{write_at-outside}
use winluks.Volume.Sizes.{read_at-size, write_at-size, flush-size}
use winluks.Adapter
use winluks.Adapter.{BlockAdapter, inner}
use winluks.Adapter.Disk.{
  Holds, read-cases, write-cases, flush-cases, flush-contents, read-Holds, write-Holds, flush-Holds,
  read_honest,
}

-- What a volume keeps of an earlier one, whatever is written to its payload.
pub record IsFramed {B : Backend} (L : IsFile B) (v w : UnlockedVolume B) : Type 0 where
  pub session : SameSession v w
  pub below : (i : ℕ) → i < v.offset → L.contents w.image.file i ≡ L.contents v.image.file i
  pub file_size : L.size w.image.file ≡ L.size v.image.file

pub IsFramed-refl : {B : Backend} (L : IsFile B) (v : UnlockedVolume B) → IsFramed L v v
IsFramed-refl L v = record { session = SameSession-refl v; below = λ i _. refl; file_size = refl }

pub IsFramed-trans :
    {B : Backend} (L : IsFile B) {v w u : UnlockedVolume B}
    → IsFramed L v w
    → IsFramed L w u
    → IsFramed L v u
IsFramed-trans L s t = record {
  session = SameSession-trans s.session t.session;
  below = λ i p. t.below i (omega (arith, p, s.session.offset)) ∙ s.below i p;
  file_size = t.file_size ∙ s.file_size;
}

module _ (B : Backend) (L : IsFile B) (patient : IsPatient B) (P : Libraries) (C : IsCipher P) where
  read_at-IsFramed : (v : UnlockedVolume B) (o n : ℕ) → IsFramed L v (read_at B P v o n).1
  read_at-IsFramed v o n = record {
    session = read_at-SameSession B P v o n;
    below = λ i _. read_at-contents B L P v o n i;
    file_size = read_at-size B L P v o n;
  }

  write_at-IsFramed :
      (v : UnlockedVolume B) (o : ℕ) (bytes : List ℕ) → IsFramed L v (write_at B P v o bytes).1
  write_at-IsFramed v o bytes = record {
    session = write_at-SameSession B P v o bytes;
    below = λ i p. write_at-outside B L P v o bytes i (inl (omega arith));
    file_size = write_at-size B L P v o bytes;
  }

  volume_flush-IsFramed : (v : UnlockedVolume B) → IsFramed L v (Volume.flush B v).1
  volume_flush-IsFramed v = record {
    session = flush-SameSession B P v;
    below = λ i _. flush-contents B L patient P C v i;
    file_size = flush-size B L P v;
  }

  read-IsFramed :
      (a : BlockAdapter B) (lba count : ℕ)
      → IsFramed L (inner B a) (inner B (Adapter.read B P a lba count).1)
  read-IsFramed a lba count = elim (read-cases B L patient P C a lba count) [
    | inl refused ↦ rw refused.1 (IsFramed-refl L (inner B a))
    | inr handed ↦ rw handed.1 (read_at-IsFramed (inner B a) (lba * 512) (count * 512))
  ]

  pub write-IsFramed :
      (a : BlockAdapter B) (lba : ℕ) (bytes : List ℕ)
      → IsFramed L (inner B a) (inner B (Adapter.write B P a lba bytes).1)
  write-IsFramed a lba bytes = elim (write-cases B L patient P C a lba bytes) [
    | inl refused ↦ rw refused.1 (IsFramed-refl L (inner B a))
    | inr handed ↦ rw handed.1 (write_at-IsFramed (inner B a) (lba * 512) bytes)
  ]

  flush-IsFramed :
      (a : BlockAdapter B) (lba count : ℕ)
      → IsFramed L (inner B a) (inner B (Adapter.flush B a lba count).1)
  flush-IsFramed a lba count = elim (flush-cases B L patient P C a lba count) [
    | inl same ↦ rw same (IsFramed-refl L (inner B a))
    | inr handed ↦ rw handed (volume_flush-IsFramed (inner B a))
  ]

  -- An adapter in a session for writing that began with the volume `v`.
  pub record IsGoing (v : UnlockedVolume B) (a : BlockAdapter B) : Type 0 where
    pub framed : IsFramed L v (inner B a)
    pub running : a.stopped ≡ false
    pub writable : (inner B a).image.mode ≡ AccessMode.read_write
    pub disk : Contents
    pub holds : Holds B L patient P C (inner B a) disk

  pub read-IsGoing :
      (v : UnlockedVolume B) (a : BlockAdapter B) (lba count : ℕ)
      → IsGoing v a
      → IsGoing v (Adapter.read B P a lba count).1
  unfolding Adapter.read
  read-IsGoing v a lba count g =
      let f = read-IsFramed a lba count in
      record {
        framed = IsFramed-trans L g.framed f;
        running = ground (arith, g.running);
        writable = f.session.mode ∙ g.writable;
        disk = g.disk;
        holds = read-Holds B L patient P C a g.disk lba count g.holds;
      }

  pub write-IsGoing :
      (v : UnlockedVolume B) (a : BlockAdapter B) (lba : ℕ) (bytes : List ℕ)
      → IsGoing v a
      → IsGoing v (Adapter.write B P a lba bytes).1
  unfolding Adapter.write
  write-IsGoing v a lba bytes g =
      let f = write-IsFramed a lba bytes in
      record {
        framed = IsFramed-trans L g.framed f;
        running = ground (arith, g.running);
        writable = f.session.mode ∙ g.writable;
        disk = elim (Adapter.write B P a lba bytes).0 [
          | ok _ ↦ overwrite g.disk (lba * 512) bytes
          | _ ↦ g.disk
        ];
        holds = write-Holds B L patient P C a g.disk lba bytes _ g.holds refl;
      }

  pub flush-IsGoing :
      (v : UnlockedVolume B) (a : BlockAdapter B) (lba count : ℕ)
      → IsGoing v a
      → IsGoing v (Adapter.flush B a lba count).1
  unfolding Adapter.flush
  flush-IsGoing v a lba count g =
      let f = flush-IsFramed a lba count in
      record {
        framed = IsFramed-trans L g.framed f;
        running = ground (arith, g.running);
        writable = f.session.mode ∙ g.writable;
        disk = g.disk;
        holds = flush-Holds B L patient P C a g.disk lba count g.holds;
      }

  -- What was just written is what is read back.
  pub read_back :
      (v : UnlockedVolume B) (a : BlockAdapter B) (lba count : ℕ) (bytes got : List ℕ)
      → IsGoing v a
      → count * 512 ≡ length bytes
      → (Adapter.write B P a lba bytes).0 ≡ ok tt
      → (Adapter.read B P (Adapter.write B P a lba bytes).1 lba count).0 ≡ ok got
      → got ≡ bytes
  read_back v a lba count bytes got g sized w r =
      read_honest B L patient P C (Adapter.write B P a lba bytes).1
        (overwrite g.disk (lba * 512) bytes) lba count got
        (write-Holds B L patient P C a g.disk lba bytes (ok tt) g.holds w) r
      ∙ slice-overwrite_self g.disk (lba * 512) bytes (count * 512) (sym sized)
