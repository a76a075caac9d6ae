-- ===== src/Image/Fault/Laws.antt =====
-- The injector of src/image/fault.rs keeps what src/image.rs relies on of a file.
use winluks.Base.{
  ℕ, ◌+◌, ◌≤◌, ◌<◌, ◌≡◌, refl, List, [], ◌∷◌, arith, length, take, take-take, length-take,
}
use winluks.Base.Contents.{slice, overwrite}
use winluks.Image.Os.{Backend, IsFile, IsPatient, IoResult, done}
use winluks.Image.Fault.{
  Operation, read, write, ErrorKind, other, Action, limit, fail, panic, next, rest,
}
use winluks.Image.Fault.{Faulty, faulty_write, faulty_read, faulty_sync, with_faults}

-- How many bytes a call is let through with is at most what it asked for.
next-le :
    (plan : List (Operation × Action)) (op : Operation) (size k : ℕ)
    → next plan op size ≡ done k
    → k ≤ size
next-le [] op size k e = ground arith
next-le ((expected, limit n) ∷ plan) op size k e = ground arith
next-le ((expected, fail ErrorKind.interrupted) ∷ plan) op size k e = ground arith
next-le ((expected, fail other) ∷ plan) op size k e = ground arith
next-le ((expected, panic) ∷ plan) op size k e = ground arith

module _ (B : Backend) (L : IsFile B) where
  open L use {contents, size}

  faulty_write-done :
      (s : Faulty B) (o : ℕ) (b : List ℕ) (n i : ℕ)
      → (faulty_write B s o b).0 ≡ done n
      → o + length b ≤ size s.0
      → (n ≤ length b)
        × (contents (faulty_write B s o b).1.0 i ≡ overwrite (contents s.0) o (take n b) i)
  unfolding faulty_write
  faulty_write-done s o b n i e fits = by_next (next s.1.plan write (length b)) refl
    where
      by_next :
          (r : IoResult ℕ)
          → next s.1.plan write (length b) ≡ r
          → (n ≤ length b)
            × (contents (faulty_write B s o b).1.0 i ≡ overwrite (contents s.0) o (take n b) i)
      by_next (done k) q = ground (
        arith,
        L.write_at-done s.0 o (take k b) n i,
        length-take k b,
        take-take n k b,
        next-le s.1.plan write (length b) k,
      )
      by_next _ q = ground arith

  faulty_write-interrupted :
      (s : Faulty B) (o : ℕ) (b : List ℕ) (i : ℕ)
      → (faulty_write B s o b).0 ≡ IoResult.interrupted
      → contents (faulty_write B s o b).1.0 i ≡ contents s.0 i
  unfolding faulty_write
  faulty_write-interrupted s o b i e = grind (arith, L.write_at-interrupted)

  faulty_write-below :
      (s : Faulty B) (o : ℕ) (b : List ℕ) (i : ℕ)
      → i < o
      → contents (faulty_write B s o b).1.0 i ≡ contents s.0 i
  unfolding faulty_write
  faulty_write-below s o b i h = grind (arith, L.write_at-below)

  faulty_write-above :
      (s : Faulty B) (o : ℕ) (b : List ℕ) (i : ℕ)
      → o + length b ≤ i
      → contents (faulty_write B s o b).1.0 i ≡ contents s.0 i
  unfolding faulty_write
  faulty_write-above s o b i h = grind (arith, L.write_at-above, length-take)

  faulty_write-size :
      (s : Faulty B) (o : ℕ) (b : List ℕ)
      → o + length b ≤ size s.0
      → size (faulty_write B s o b).1.0 ≡ size s.0
  unfolding faulty_write
  faulty_write-size s o b fits = grind (arith, L.write_at-size, length-take)

  faulty_read-done :
      (s : Faulty B) (o n : ℕ) (bytes : List ℕ)
      → (faulty_read B s o n).0 ≡ done bytes
      → o + n ≤ size s.0
      → (length bytes ≤ n) × (bytes ≡ slice (contents s.0) o (length bytes))
  unfolding faulty_read
  faulty_read-done s o n bytes e fits = by_next (next s.1.plan read n) refl
    where
      by_next :
          (r : IoResult ℕ)
          → next s.1.plan read n ≡ r
          → (length bytes ≤ n) × (bytes ≡ slice (contents s.0) o (length bytes))
      by_next (done k) q = ground (arith, L.read_at-done s.0 o k bytes, next-le s.1.plan read n k)
      by_next _ q = ground arith

  faulty_read-contents :
      (s : Faulty B) (o n i : ℕ) → contents (faulty_read B s o n).1.0 i ≡ contents s.0 i
  unfolding faulty_read
  faulty_read-contents s o n i = grind (arith, L.read_at-contents)

  faulty_read-size : (s : Faulty B) (o n : ℕ) → size (faulty_read B s o n).1.0 ≡ size s.0
  unfolding faulty_read
  faulty_read-size s o n = grind (arith, L.read_at-size)

  faulty_sync-contents : (s : Faulty B) (i : ℕ) → contents (faulty_sync B s).1.0 i ≡ contents s.0 i
  unfolding faulty_sync
  faulty_sync-contents s i = grind (arith, L.sync_all-contents)

  faulty_sync-size : (s : Faulty B) → size (faulty_sync B s).1.0 ≡ size s.0
  unfolding faulty_sync
  faulty_sync-size s = grind (arith, L.sync_all-size)

  -- A file behind the fault injector behaves as a file if the file does.
  pub with_faults-IsFile : IsFile (with_faults B)
  with_faults-IsFile = record {
    contents = λ s. contents s.0;
    size = λ s. size s.0;
    file_len-done = λ s n e. L.file_len-done s.0 n e;
    file_len-contents = λ s i. L.file_len-contents s.0 i;
    file_len-size = λ s. L.file_len-size s.0;
    read_at-done = faulty_read-done;
    read_at-contents = faulty_read-contents;
    read_at-size = faulty_read-size;
    write_at-done = faulty_write-done;
    write_at-interrupted = faulty_write-interrupted;
    write_at-below = faulty_write-below;
    write_at-above = faulty_write-above;
    write_at-size = faulty_write-size;
    sync_all-contents = faulty_sync-contents;
    sync_all-size = faulty_sync-size;
  }

length-rest : (plan : List (Operation × Action)) → length (rest plan) ≤ length plan
length-rest [] = omega arith
length-rest (_ ∷ plan) = omega arith

next-interrupted :
    (plan : List (Operation × Action)) (op : Operation) (size : ℕ)
    → next plan op size ≡ IoResult.interrupted
    → length (rest plan) < length plan
next-interrupted [] op size e = absurd (cc)
next-interrupted (_ ∷ plan) op size e = omega arith

module _ (B : Backend) (patient : IsPatient B) where
  faulty_read-interrupts :
      (s : Faulty B) (o n : ℕ)
      → (with_faults B).interrupts (faulty_read B s o n).1 ≤ (with_faults B).interrupts s
  unfolding faulty_read
  faulty_read-interrupts s o n = grind (arith, patient.read_at-interrupts, length-rest s.1.plan)

  faulty_read-interrupted :
      (s : Faulty B) (o n : ℕ)
      → (faulty_read B s o n).0 ≡ IoResult.interrupted
      → (with_faults B).interrupts (faulty_read B s o n).1 < (with_faults B).interrupts s
  unfolding faulty_read
  faulty_read-interrupted s o n e =
      grind
        (arith, patient.read_at-interrupted, length-rest s.1.plan, next-interrupted s.1.plan read n)

  faulty_write-interrupts :
      (s : Faulty B) (o : ℕ) (b : List ℕ)
      → (with_faults B).interrupts (faulty_write B s o b).1 ≤ (with_faults B).interrupts s
  unfolding faulty_write
  faulty_write-interrupts s o b = grind (arith, patient.write_at-interrupts, length-rest s.1.plan)

  faulty_write-fewer_interrupts :
      (s : Faulty B) (o : ℕ) (b : List ℕ)
      → (faulty_write B s o b).0 ≡ IoResult.interrupted
      → (with_faults B).interrupts (faulty_write B s o b).1 < (with_faults B).interrupts s
  unfolding faulty_write
  faulty_write-fewer_interrupts s o b e = grind (
    arith,
    patient.write_at-interrupted,
    length-rest s.1.plan,
    next-interrupted s.1.plan write (length b),
  )

  -- Behind the fault injector the interruptions end if those of the file do, since each injected
  -- one is taken off the plan.
  pub with_faults-IsPatient : IsPatient (with_faults B)
  with_faults-IsPatient = record {
    read_at-interrupts = faulty_read-interrupts;
    read_at-interrupted = faulty_read-interrupted;
    write_at-interrupts = faulty_write-interrupts;
    write_at-interrupted = faulty_write-fewer_interrupts;
  }
