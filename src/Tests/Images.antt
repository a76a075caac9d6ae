-- ===== src/Tests/Images.antt =====
-- The image, the fault injector and the sectors of the cipher in the small world.
use winluks.Base.{ℕ, ◌≡◌, refl, List, [], ◌∷◌, replicate}
use winluks.Base.Contents.{slice, overwrite}
use winluks.Error.{ok}
use winluks.Image.{Image, AccessMode, read_exact_at, read_loop, write_all_at, write_loop}
use winluks.Image.Os.{IsFile, IsPatient}
use winluks.Image.Access.{write_all_at-contents, read_exact_at-slice}
use winluks.Image.Fault.{with_faults, set, Operation, Action, ErrorKind, faulty_write, before}
use winluks.Image.Fault.Laws.{with_faults-IsFile, with_faults-IsPatient}
use winluks.Image.Memory.{memory, memory-IsFile, memory-IsPatient}
use winluks.Crypto.{crypt_sectors, crypt_loop, encrypt_sectors, decrypt_sectors, sector_iv}
use winluks.Crypto.Sectors.{decrypt_sectors-encrypt_sectors}
use winluks.Tests.World.{libraries, libraries-IsCipher, image}

with_faults-IsFile_example : IsFile (with_faults memory)
with_faults-IsFile_example = with_faults-IsFile memory memory-IsFile

with_faults-IsPatient_example : IsPatient (with_faults memory)
with_faults-IsPatient_example = with_faults-IsPatient memory memory-IsPatient

-- An image of which the first write is cut to two bytes, and the second one interrupted.
abbrev bumpy : Image (with_faults memory)
bumpy = record {
  file = (
    (image AccessMode.read_write).file,
    set (
        (Operation.write, Action.limit 2)
        ∷ (Operation.write, Action.fail ErrorKind.interrupted)
        ∷ []),
  );
  len = 4096;
  mode = AccessMode.read_write;
}

bumpy_written : (write_all_at (with_faults memory) bumpy 10 (1 ∷ 2 ∷ 3 ∷ 4 ∷ [])).0 ≡ ok tt
unfolding write_all_at write_loop faulty_write before
bumpy_written = refl

write_all_at-contents_example :
    let L = with_faults-IsFile memory memory-IsFile in
    L.contents (write_all_at (with_faults memory) bumpy 10 (1 ∷ 2 ∷ 3 ∷ 4 ∷ [])).1.file 12
    ≡ overwrite (L.contents bumpy.file) 10 (1 ∷ 2 ∷ 3 ∷ 4 ∷ []) 12
write_all_at-contents_example =
    write_all_at-contents (with_faults memory) (with_faults-IsFile memory memory-IsFile) bumpy 10
      (1 ∷ 2 ∷ 3 ∷ 4 ∷ []) 12 bumpy_written

pattern_read : (read_exact_at memory (image AccessMode.read_only) 250 3).0 ≡ ok (250 ∷ 0 ∷ 1 ∷ [])
unfolding read_exact_at read_loop slice
pattern_read = refl

read_exact_at-slice_example :
    250 ∷ 0 ∷ 1 ∷ [] ≡ slice (memory-IsFile.contents (image AccessMode.read_only).file) 250 3
read_exact_at-slice_example =
    read_exact_at-slice memory memory-IsFile (image AccessMode.read_only) 250 3 (250 ∷ 0 ∷ 1 ∷ [])
      pattern_read

abbrev key : List ℕ
key = replicate 64 1

abbrev two_sectors : List ℕ
two_sectors = replicate 1024 5

two_encrypted : encrypt_sectors libraries key 3 two_sectors ≡ ok two_sectors
unfolding crypt_sectors crypt_loop sector_iv
two_encrypted = refl

decrypt_sectors-encrypt_sectors_example :
    decrypt_sectors libraries key 3 two_sectors ≡ ok two_sectors
decrypt_sectors-encrypt_sectors_example =
    decrypt_sectors-encrypt_sectors libraries libraries-IsCipher key 3 two_sectors two_sectors
      two_encrypted
