-- ===== src/Tests/Programs.antt =====
-- The command `open` on an image of Btrfs in LUKS2, from its path to a clean close.
use winluks.Base.{
  ℕ, ◌-◌, sym, true, false, [], ◌∷◌, none, some, ltb, ◌==◌, if◌then◌else◌, get_or, arith,
}
use winluks.Base.Contents.{Contents}
use winluks.Image.Open.{FileSystem}
use winluks.Image.Memory.{memory}
use winluks.Crypto.Primitives.{IsCipher}
use winluks.Probe.{Filesystem}
use winluks.Metadata.Keyslots.{keyslot}
use winluks.Metadata.Header
use winluks.Volume
use winluks.Adapter
use winluks.Adapter.Windows.Consumer
use winluks.Program.{Machine, OpenCommand}
use winluks.Tests.Unlocking.{codecs, header_libraries, luks_bytes}
use winluks.Tests.Filesystems.{btrfs_disk, zero_sum}
use winluks.Tests.Opening.{files, consumer}
use winluks.Tests.Serving.{shim_of}

pub header_libraries-IsCipher : IsCipher header_libraries
header_libraries-IsCipher = record {
  decrypt-encrypt = λ key iv sector out e. sym e;
  length-xts = λ dir key iv sector out e. ground arith;
}

abbrev program_bytes : Contents
program_bytes i = if ltb i 16777216 then luks_bytes i else btrfs_disk (i - 16777216)

-- The driver's file is on one drive, and the image on the others.
abbrev pub program_files : FileSystem memory
program_files = record files {
  open_file = λ options path.
      if get_or path 0 0 == b'C'
      then some (record { bytes = λ i. 7; size = 3 })
      else some (record { bytes = program_bytes; size = 33554432 });
  metadata = λ f.
      if ltb 33554432 f.size
      then none
      else some (record { is_file = true; len = f.size; is_reparse_point = false });
}

abbrev machine : Machine memory ℕ
machine = record {
  files = program_files;
  libraries = header_libraries;
  codecs = codecs;
  crc32c = zero_sum;
  allocated = true;
  locked = true;
  consumer = consumer;
  terminal = true;
  password = some (b'p' ∷ []);
  shim = shim_of header_libraries;
  world = 0;
}

abbrev command : OpenCommand
command = record {
  image = some (b'D' ∷ b':' ∷ 92 ∷ b'i' ∷ []);
  keyslot = 0;
  filesystem = Filesystem.btrfs;
  read_write = true;
}
