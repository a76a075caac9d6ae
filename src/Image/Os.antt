-- ===== src/Image/Os.antt =====
-- The operating system's file, below src/image.rs: the calls that the program makes, and what it
-- relies on of them. `interrupts` is no call: it bounds how often calls can still be interrupted.
use winluks.Base.{ℕ, ◌+◌, ◌≤◌, ◌<◌, ◌≡◌, ◌≢◌, List, length, take}
use winluks.Base.Contents.{Contents, slice, overwrite}

-- `std::io::Result`, with the error kind that the loops retry on. A call panics only under test.
pub data IoResult {ℓ} (A : Type ℓ) : Type ℓ where
  done : A → IoResult A
  interrupted failed panicked : IoResult A

pub record Backend : Type 1 where
  pub File : Type 0
  pub interrupts : File → ℕ
  -- `file.metadata()?.len()`
  pub file_len : File → IoResult ℕ × File
  -- `file.write_at(buf, offset)`
  pub write_at : File → ℕ → List ℕ → IoResult ℕ × File
  -- `file.read_at(buf, offset)` into a buffer of that many bytes
  pub read_at : File → ℕ → ℕ → IoResult (List ℕ) × File
  -- `file.sync_all()`
  pub sync_all : File → IoResult (Unit {0}) × File

-- A regular file that no other process changes, with a length and a byte at each position below it.
pub record IsFile (B : Backend) : Type 0 where
  pub contents : B.File → Contents
  pub size : B.File → ℕ
  pub file_len-done : (f : B.File) (n : ℕ) → (B.file_len f).0 ≡ done n → n ≡ size f
  pub file_len-contents : (f : B.File) (i : ℕ) → contents (B.file_len f).1 i ≡ contents f i
  pub file_len-size : (f : B.File) → size (B.file_len f).1 ≡ size f
  -- A read inside the file gives the bytes at its place, or fewer, and changes nothing.
  pub read_at-done :
      (f : B.File) (o n : ℕ) (bytes : List ℕ)
      → (B.read_at f o n).0 ≡ done bytes
      → o + n ≤ size f
      → (length bytes ≤ n) × (bytes ≡ slice (contents f) o (length bytes))
  pub read_at-contents : (f : B.File) (o n i : ℕ) → contents (B.read_at f o n).1 i ≡ contents f i
  pub read_at-size : (f : B.File) (o n : ℕ) → size (B.read_at f o n).1 ≡ size f
  -- A write inside the file that reports n puts down the first n bytes.
  pub write_at-done :
      (f : B.File) (o : ℕ) (b : List ℕ) (n i : ℕ)
      → (B.write_at f o b).0 ≡ done n
      → o + length b ≤ size f
      → (n ≤ length b) × (contents (B.write_at f o b).1 i ≡ overwrite (contents f) o (take n b) i)
  -- An interrupted one has written nothing.
  pub write_at-interrupted :
      (f : B.File) (o : ℕ) (b : List ℕ) (i : ℕ)
      → (B.write_at f o b).0 ≡ interrupted
      → contents (B.write_at f o b).1 i ≡ contents f i
  -- Whatever a write reports, it leaves the bytes outside its range and the length alone.
  pub write_at-below :
      (f : B.File) (o : ℕ) (b : List ℕ) (i : ℕ)
      → i < o
      → contents (B.write_at f o b).1 i ≡ contents f i
  pub write_at-above :
      (f : B.File) (o : ℕ) (b : List ℕ) (i : ℕ)
      → o + length b ≤ i
      → contents (B.write_at f o b).1 i ≡ contents f i
  pub write_at-size :
      (f : B.File) (o : ℕ) (b : List ℕ) → o + length b ≤ size f → size (B.write_at f o b).1 ≡ size f
  pub sync_all-contents : (f : B.File) (i : ℕ) → contents (B.sync_all f).1 i ≡ contents f i
  pub sync_all-size : (f : B.File) → size (B.sync_all f).1 ≡ size f

-- Interruptions come to an end: each one uses up at least one of those still to come.
pub record IsPatient (B : Backend) : Type 0 where
  pub read_at-interrupts :
      (f : B.File) (o n : ℕ) → B.interrupts (B.read_at f o n).1 ≤ B.interrupts f
  pub read_at-interrupted :
      (f : B.File) (o n : ℕ)
      → (B.read_at f o n).0 ≡ interrupted
      → B.interrupts (B.read_at f o n).1 < B.interrupts f
  pub write_at-interrupts :
      (f : B.File) (o : ℕ) (b : List ℕ) → B.interrupts (B.write_at f o b).1 ≤ B.interrupts f
  pub write_at-interrupted :
      (f : B.File) (o : ℕ) (b : List ℕ)
      → (B.write_at f o b).0 ≡ interrupted
      → B.interrupts (B.write_at f o b).1 < B.interrupts f

-- A backend outside the tests: no call panics.
pub record IsCalm (B : Backend) : Type 0 where
  pub file_len-calm : (f : B.File) → (B.file_len f).0 ≢ panicked
  pub read_at-calm : (f : B.File) (o n : ℕ) → (B.read_at f o n).0 ≢ panicked
  pub write_at-calm : (f : B.File) (o : ℕ) (b : List ℕ) → (B.write_at f o b).0 ≢ panicked
  pub sync_all-calm : (f : B.File) → (B.sync_all f).0 ≢ panicked
