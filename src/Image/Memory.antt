-- ===== src/Image/Memory.antt =====
-- A file kept in memory: it meets what src/image.rs relies on of the operating system.
use Prim.Native.Nat.{min, max}
use winluks.Base.{ℕ, ◌+◌, ◌-◌, refl, arith, length, take-all}
use winluks.Base.Contents.{
  Contents, slice, overwrite, overwrite-below, overwrite-above, length-slice,
}
use winluks.Image.Os.{Backend, IsFile, IsPatient, done}

pub record MemoryFile : Type 0 where
  pub bytes : Contents
  pub size : ℕ

abbrev pub memory : Backend
memory = record {
  File = MemoryFile;
  interrupts = λ f. 0;
  file_len = λ f. (done f.size, f);
  write_at = λ f o b.
      (done (length b), record { bytes = overwrite f.bytes o b; size = max f.size (o + length b) });
  read_at = λ f o n. (done (slice f.bytes o (min n (f.size - o))), f);
  sync_all = λ f. (done tt, f);
}

unfoldable pub memory-IsFile : IsFile memory
memory-IsFile = record {
  contents = λ f. f.bytes;
  size = λ f. f.size;
  file_len-done = λ f n e. ground arith;
  file_len-contents = λ f i. refl;
  file_len-size = λ f. refl;
  read_at-done = λ f o n b e fits. ground (arith, length-slice f.bytes o (min n (f.size - o)));
  read_at-contents = λ f o n i. refl;
  read_at-size = λ f o n. refl;
  write_at-done = λ f o b n i e fits. ground (arith, take-all (length b) b (omega arith));
  write_at-interrupted = λ f o b i e. ground arith;
  write_at-below = λ f o b i h. overwrite-below f.bytes o b i h;
  write_at-above = λ f o b i h. overwrite-above f.bytes o b i h;
  write_at-size = λ f o b fits. omega arith;
  sync_all-contents = λ f i. refl;
  sync_all-size = λ f. refl;
}

pub memory-IsPatient : IsPatient memory
memory-IsPatient = record {
  read_at-interrupts = λ f o n. omega arith;
  read_at-interrupted = λ f o n e. ground arith;
  write_at-interrupts = λ f o b. omega arith;
  write_at-interrupted = λ f o b e. ground arith;
}
