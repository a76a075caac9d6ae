-- ===== src/Tests/Trials.antt =====
-- The oracles of examples/ over images in memory.
use winluks.Base.{
  ℕ, ◌+◌, ◌/◌, ◌%◌, ◌≡◌, ◌≢◌, refl, ap, sym, true, false, [], ◌∷◌, some, length, arith,
}
use winluks.Base.Contents.{slice}
use winluks.Image.{AccessMode}
use winluks.Image.Os.{done}
use winluks.Image.Open.{FileSystem}
use winluks.Image.Memory.{MemoryFile, memory, memory-IsFile, memory-IsPatient}
use winluks.Oracles.{Hasher, Place, refuted, endless}
use winluks.Oracles.Reopening.{Describes, Leads}
use winluks.Oracles.Digest.{digest_of}
use winluks.Oracles.Rw
use winluks.Oracles.Rw.Passes.{main_upheld}
use winluks.Oracles.Ro
use winluks.Oracles.Ro.{checks}
use winluks.Oracles.Ro.Intact.{IsIntact}
use winluks.Oracles.Ro.Whole.{IsSha}
use winluks.Oracles.Ro.Ranges.{IsPlaintext}
use winluks.Oracles.Ro.Upheld.{checks_upheld}
use winluks.Adapter.Windows.Consumer.{hex}
use winluks.Tests.World.{libraries, shown, volume, volume-IsPlaced, volume-Shows}
use winluks.Tests.Filesystems.{zero_sum}
use winluks.Tests.Unlocking.{codecs, header_libraries}
use winluks.Tests.Programs.{program_files, header_libraries-IsCipher}

-- A hash that counts the bytes.
abbrev counter : Hasher
counter = record {
  State = ℕ;
  new = some 0;
  update = λ count bytes. some (count + length bytes);
  finish = λ count. some (count / 256 ∷ count % 256 ∷ []);
}

abbrev files_closed : MemoryFile → FileSystem memory
files_closed f = record program_files { open_file = λ options path. some f }

abbrev rw_fixture : Rw.Fixture
rw_fixture = record {
  place = record { windows = false; path = b'D' ∷ b':' ∷ 92 ∷ b'i' ∷ [] };
  filesystem = some "btrfs";
  keyslot = some 0;
  password = b'p' ∷ [];
}

files-Describes : Describes memory-IsFile program_files
unfolding memory-IsFile
files-Describes = record { described = λ f meta e. ground arith; short = λ f meta e. ground arith }

closed-Leads : (f : MemoryFile) → Leads memory-IsFile rw_fixture.place.path f (files_closed f)
unfolding memory-IsFile
closed-Leads f = record {
  describes = record { described = λ g meta e. ground arith; short = λ g meta e. ground arith };
  same = λ options g e i. let q : f ≡ g = ground (arith, e) in ap (λ h. h.bytes i) (sym q);
  same_size = λ options g e. let q : f ≡ g = ground (arith, e) in ap (λ h. h.size) (sym q);
}

main_upheld_example :
    (Rw.main counter codecs header_libraries zero_sum true true program_files files_closed
        rw_fixture
      ≢ refuted)
    × (Rw.main counter codecs header_libraries zero_sum true true program_files files_closed
          rw_fixture
        ≢ endless)
main_upheld_example =
    main_upheld counter codecs header_libraries zero_sum true true program_files files_closed
      memory-IsFile memory-IsPatient header_libraries-IsCipher
      (λ key k. record { plain = λ iv sector. sector; decrypted = λ iv sector h. refl }) rw_fixture
      files-Describes closed-Leads

abbrev plaintext_place : Place
plaintext_place = record { windows = false; path = b'p' ∷ [] }

abbrev plaintext_files : FileSystem memory
plaintext_files = record program_files {
  open_file = λ options path. some (record { bytes = shown; size = 1536 });
}

abbrev ro_fixture : Ro.Fixture
ro_fixture = record {
  place = plaintext_place;
  keyslot = some 0;
  password = b'p' ∷ [];
  plaintext_bytes = some 1536;
  different_slot_password = false;
  plaintext_sha256 = some (hex (6 ∷ 0 ∷ []));
  plaintext = some plaintext_place;
  exists = true;
  filesystem = some "btrfs";
}

volume-IsIntact : IsIntact memory-IsFile libraries shown 1536 (volume AccessMode.read_only)
unfolding memory-IsFile
volume-IsIntact = record {
  placed = volume-IsPlaced AccessMode.read_only;
  shows = volume-Shows AccessMode.read_only;
  sound = refl;
  in_order = refl;
  read_only = refl;
  same_len = refl;
  sized = refl;
}

counted : digest_of counter shown 1537 1536 0 0 ≡ some (hex (6 ∷ 0 ∷ []))
unfolding slice
counted = refl

counter-IsSha : IsSha counter shown 1536 ro_fixture.plaintext_sha256
counter-IsSha hash expected digest started given counts =
    let zero_hash : hash ≡ 0 = ground (arith, started) in
    let here = ap (λ h. digest_of counter shown 1537 1536 0 h) zero_hash in
    cc (here, counts, counted, given)

plaintext-IsPlaintext : IsPlaintext memory-IsFile shown 1536 plaintext_files ro_fixture.plaintext
unfolding memory-IsFile
plaintext-IsPlaintext place options f given opened i p =
    let q : record { bytes = shown; size = 1536 } ≡ f = ground (arith, opened) in
    ap (λ h. h.bytes i) (sym q)

memory-steady : (f : MemoryFile) → (memory.file_len f).0 ≡ done (memory-IsFile.size f)
unfolding memory-IsFile
memory-steady f = refl

checks_upheld_example :
    (checks counter codecs libraries zero_sum true true plaintext_files ro_fixture
        (volume AccessMode.read_only)
      ≢ refuted)
    × (checks counter codecs libraries zero_sum true true plaintext_files ro_fixture
          (volume AccessMode.read_only)
        ≢ endless)
checks_upheld_example =
    checks_upheld counter codecs libraries zero_sum true true plaintext_files memory-IsFile
      memory-IsPatient memory-steady ro_fixture shown (volume AccessMode.read_only) volume-IsIntact
      counter-IsSha plaintext-IsPlaintext
