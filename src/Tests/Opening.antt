-- ===== src/Tests/Opening.antt =====
-- Paths, the opening of a driver's file, and keyslots side by side.
use winluks.Base.{ℕ, ◌≡◌, ◌↔◌, refl, false, true, List, [], ◌∷◌, replicate, some}
use winluks.Error.{ok}
use winluks.Image.{Image, AccessMode, read_exact_at, read_loop}
use winluks.Image.Memory.{memory, memory-IsFile}
use winluks.Image.Open.{
  FileSystem, bad_path, bad_path_iff, bad_name, check_handle, open_windows, Lacks, IsLetter,
}
use winluks.Base.Contents.{slice}
use winluks.Probe.{Filesystem}
use winluks.Probe.Fields.{same_bytes}
use winluks.Adapter.Windows.Consumer.{
  Consumer, check_consumer, check_image, check_digest, before_zero, check_consumer-IsTested,
  filesystem_id, IsTested, IsTerminated,
}

abbrev driver_path : List ℕ
driver_path = b'C' ∷ b':' ∷ 92 ∷ b'd' ∷ []

bad_path_iff_example : (bad_path driver_path ≡ false) ↔ (
    (letter : ℕ) × (rest : List ℕ) × (driver_path ≡ letter ∷ b':' ∷ 92 ∷ rest)
    × IsLetter letter
    × Lacks b':' rest)
bad_path_iff_example = bad_path_iff driver_path

-- One disk, on which every path is the driver's file.
abbrev pub files : FileSystem memory
files = record {
  open_file = λ options path. some (record { bytes = λ i. 7; size = 3 });
  metadata = λ f. some (record { is_file = true; len = f.size; is_reparse_point = false });
  flock = λ exclusive f. true;
  is_disk = λ f. true;
  is_remote = λ f. false;
  final_name = λ f. (8, 92 ∷ 92 ∷ b'?' ∷ 92 ∷ b'C' ∷ b':' ∷ 92 ∷ b'd' ∷ replicate 10 0);
  from_utf16 = λ units. some units;
  is_fixed = λ root. true;
}

abbrev driver : Image memory
driver = record { file = record { bytes = λ i. 7; size = 3 }; len = 3; mode = AccessMode.read_only }

opened : open_windows files (some driver_path) AccessMode.read_only ≡ ok driver
unfolding open_windows bad_path check_handle bad_name
opened = refl

-- A digest that is the expected one for three bytes.
abbrev tested_digest : List ℕ
tested_digest =
    0x3c ∷ 0x46 ∷ 0xf0 ∷ 0xf8 ∷ 0x27 ∷ 0x26 ∷ 0xe3 ∷ 0x74 ∷ 0xce ∷ 0xc3 ∷ 0xd2 ∷ 0xe3 ∷ 0x6d ∷ 0xef
    ∷ 0xd2 ∷ 0xc6 ∷ 0x72 ∷ 0xc6 ∷ 0x89 ∷ 0x03 ∷ 0x89 ∷ 0x5a ∷ 0x51 ∷ 0x0a ∷ 0x29 ∷ 0x76 ∷ 0x2f
    ∷ 0x6f ∷ 0x93 ∷ 0x86 ∷ 0x67 ∷ 0x97 ∷ []

abbrev pub consumer : Consumer
consumer = record {
  wl_consumer_ready = λ id read_only. (0, b'C' ∷ b':' ∷ 92 ∷ b'd' ∷ replicate 8 0);
  sha256 = λ bytes. tested_digest;
}

checked : check_consumer files consumer Filesystem.btrfs AccessMode.read_only ≡ ok tt
unfolding check_consumer check_image check_digest before_zero open_windows bad_path check_handle
    bad_name read_exact_at read_loop same_bytes slice
checked = refl

check_consumer-IsTested_example :
    let answer = consumer.wl_consumer_ready (filesystem_id Filesystem.btrfs) true in
    (answer.0 ≡ 0)
    × ((path : List ℕ) × (im : Image memory) × IsTerminated path answer.1
        × (open_windows files (files.from_utf16 path) AccessMode.read_only ≡ ok im)
        × IsTested memory-IsFile files consumer Filesystem.btrfs im)
check_consumer-IsTested_example =
    check_consumer-IsTested memory-IsFile files consumer Filesystem.btrfs AccessMode.read_only
      checked
