-- ===== src/Tests/World.antt =====
-- A small world: a file in memory, a cipher that keeps the text, and a volume over them.
use winluks.Base.{
  ℕ, ◌+◌, ◌*◌, ◌%◌, ◌≡◌, refl, sym, ap, zero, suc, true, false, replicate, ◌∷◌, some, arith,
}
use winluks.Base.Contents.{Contents, slice}
use winluks.Image.{Image, AccessMode}
use winluks.Image.Os.{IsCalm}
use winluks.Image.Memory.{memory, memory-IsFile}
use winluks.Crypto.Primitives.{Libraries, IsCipher}
use winluks.Probe.{Filesystem}
use winluks.Volume.{UnlockedVolume}
use winluks.Volume.Payload.{IsPlaced, Shows}
use winluks.Adapter.{BlockAdapter}

-- A cipher that puts out what goes in; nothing else of the libraries is used.
abbrev pub libraries : Libraries
libraries = record {
  xts = λ dir key iv sector. some sector;
  hash = λ h bytes. some bytes;
  pbkdf2_hmac = λ password salt iterations h size. some password;
  argon2_block_count = λ memory time cpus size. some 8;
  can_reserve = λ blocks. true;
  argon2_hash = λ id memory time cpus password salt size. some password;
  elapsed = λ kdf password size. 0;
}

pub libraries-IsCipher : IsCipher libraries
libraries-IsCipher = record {
  decrypt-encrypt = λ key iv sector out e. sym e;
  length-xts = λ dir key iv sector out e. ground arith;
}

pub memory-IsCalm : IsCalm memory
memory-IsCalm = record {
  file_len-calm = λ f e. ground arith;
  read_at-calm = λ f o n e. ground arith;
  write_at-calm = λ f o b e. ground arith;
  sync_all-calm = λ f e. ground arith;
}

abbrev pub pattern_bytes : Contents
pattern_bytes i = i % 251

-- What the volume of this world shows: the pattern from the payload's place on.
abbrev pub shown : Contents
shown i = (2048 + i) % 251

abbrev pub image : AccessMode → Image memory
image mode = record {
  file = record { bytes = pattern_bytes; size = 4096 };
  len = 4096;
  mode = mode;
}

abbrev pub volume : AccessMode → UnlockedVolume memory
volume mode = record {
  image = image mode;
  offset = 2048;
  len = 1536;
  key = record { bytes = replicate 64 1; locked = true };
  poisoned = false;
  faulted = false;
}

pub volume-IsPlaced : (mode : AccessMode) → IsPlaced (volume mode)
volume-IsPlaced mode = record { whole = refl; inside = omega arith; addressable = omega arith }

pub slice-shift : (c : Contents) (o n : ℕ) → slice c (2048 + o) n ≡ slice (λ i. c (2048 + i)) o n
unfolding slice
slice-shift c o zero = refl
slice-shift c o (suc n) =
    let next : 2048 + o + 1 ≡ 2048 + (o + 1) = omega arith in
    rw next (ap (λ r. c (2048 + o) ∷ r) (slice-shift c (o + 1) n))

pub volume-Shows : (mode : AccessMode) → Shows memory-IsFile libraries (volume mode) shown
unfolding memory-IsFile
volume-Shows mode = record {
  sectors = λ j within. ap some (slice-shift pattern_bytes (512 * j) 512);
}

abbrev pub adapter : AccessMode → BlockAdapter memory
adapter mode = record {
  volume = record { volume = volume mode; filesystem = Filesystem.ext4 };
  stopped = false;
  reads = 0;
  write_attempts = 0;
  unmap_attempts = 0;
  flushes = 0;
}
