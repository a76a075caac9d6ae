-- ===== src/Tests/Volumes.antt =====
-- The volume and the session in the small world.
use winluks.Base.{ℕ, ◌≡◌, ◌≢◌, ◌⊎◌, inl, inr, refl, true, false, List, [], ◌∷◌, arith, replicate}
use winluks.Base.Contents.{slice, overwrite}
use winluks.Error.{ok, err, panic, unfinished, writeback_failed}
use winluks.Image.{AccessMode, read_exact_at, read_loop, write_all_at, write_loop}
use winluks.Image
use winluks.Image.Fault.{with_faults, set, Operation, Action, ErrorKind, faulty_write, before}
use winluks.Image.Memory.{memory, memory-IsFile, memory-IsPatient}
use winluks.Crypto.{crypt_sectors, crypt_loop, sector_iv}
use winluks.Volume.{
  UnlockedVolume, read_at, read_locked, read_sectors, write_at, write_locked, store, out_of_range,
}
use winluks.Volume.Payload.{Shows}
use winluks.Volume.Faults.{
  IsBroken, write_at_unacknowledged, write_at_acknowledged, write_at-IsBroken,
}
use winluks.Volume.Reads.{read_at-slice}
use winluks.Volume.Writes.{write_at-Shows, write_at-outside}
use winluks.Volume.Totality.{read_at-ne-panic, write_at-ne-unfinished}
use winluks.Adapter.Session.{Command, Explains, run, session-Explains}
use winluks.Tests.World.{
  libraries, libraries-IsCipher, memory-IsCalm, volume, shown, volume-IsPlaced, volume-Shows,
  adapter,
}

abbrev nines : List ℕ
nines = replicate 512 9

abbrev rw_volume : UnlockedVolume memory
rw_volume = volume AccessMode.read_write

abbrev commands : List Command
commands =
    Command.read 0 2
    ∷ Command.write 1 nines
    ∷ Command.read 1 1
    ∷ Command.flush 0 0
    ∷ Command.unmap
    ∷ Command.read 3 1
    ∷ Command.stop
    ∷ Command.write 0 nines
    ∷ []

session-Explains_example :
    Explains shown (run memory libraries (adapter AccessMode.read_write) commands)
session-Explains_example =
    session-Explains memory memory-IsFile memory-IsPatient libraries libraries-IsCipher
      (adapter AccessMode.read_write) shown commands (volume-IsPlaced AccessMode.read_write)
      (volume-Shows AccessMode.read_write)

read_600 :
    (read_at memory libraries (volume AccessMode.read_only) 600 3).0 ≡ ok (138 ∷ 139 ∷ 140 ∷ [])
unfolding read_at read_locked read_sectors read_exact_at read_loop crypt_sectors crypt_loop
    out_of_range slice sector_iv
read_600 = refl

write_512 :
    (write_at memory libraries (volume AccessMode.read_write) 512 (replicate 512 9)).0 ≡ ok tt
unfolding write_at write_locked store write_all_at write_loop Image.sync crypt_sectors crypt_loop
    out_of_range sector_iv
write_512 = refl

read_at-slice_example : 138 ∷ 139 ∷ 140 ∷ [] ≡ slice shown 600 3
read_at-slice_example =
    read_at-slice memory memory-IsFile libraries (volume AccessMode.read_only) shown
      (volume-IsPlaced AccessMode.read_only) (volume-Shows AccessMode.read_only) 600 3
      (138 ∷ 139 ∷ 140 ∷ []) read_600

write_at-Shows_example :
    Shows memory-IsFile libraries
      (write_at memory libraries rw_volume 512 nines).1
      (overwrite shown 512 nines)
write_at-Shows_example =
    write_at-Shows memory memory-IsFile libraries libraries-IsCipher rw_volume shown
      (volume-IsPlaced AccessMode.read_write) (volume-Shows AccessMode.read_write) 512 nines
      write_512

write_at-outside_example :
    memory-IsFile.contents (write_at memory libraries rw_volume 512 nines).1.image.file 3072
    ≡ memory-IsFile.contents rw_volume.image.file 3072
write_at-outside_example =
    write_at-outside memory memory-IsFile libraries rw_volume 512 nines 3072 (inr (omega arith))

write_at_acknowledged_example :
    (AccessMode.read_write ≡ AccessMode.read_write)
    × (false ≡ false)
    × (false ≡ false)
    × ((write_at memory libraries rw_volume 512 nines).1.faulted ≡ false)
    × ((write_at memory libraries rw_volume 512 nines).1.poisoned ≡ false)
write_at_acknowledged_example = write_at_acknowledged memory libraries rw_volume 512 nines write_512

read_at-ne-panic_example : (read_at memory libraries (volume AccessMode.read_only) 600 3).0 ≢ panic
read_at-ne-panic_example =
    read_at-ne-panic memory memory-IsFile memory-IsCalm libraries (volume AccessMode.read_only) 600
      3

write_at-ne-unfinished_example : (write_at memory libraries rw_volume 512 nines).0 ≢ unfinished
write_at-ne-unfinished_example =
    write_at-ne-unfinished memory memory-IsPatient libraries rw_volume 512 nines

-- A disk that takes 100 bytes and then fails.
abbrev failing : UnlockedVolume (with_faults memory)
failing = record {
  image = record {
    file = (
      rw_volume.image.file,
      set (
          (Operation.write, Action.limit 100)
          ∷ (Operation.write, Action.fail ErrorKind.other)
          ∷ []),
    );
    len = 4096;
    mode = AccessMode.read_write;
  };
  offset = 2048;
  len = 1536;
  key = rw_volume.key;
  poisoned = false;
  faulted = false;
}

write_fails : (write_at (with_faults memory) libraries failing 512 nines).0 ≡ err writeback_failed
unfolding write_at write_locked store write_all_at write_loop Image.sync crypt_sectors crypt_loop
    out_of_range sector_iv faulty_write before
write_fails = refl

write_at_unacknowledged_example :
    let r = write_at (with_faults memory) libraries failing 512 nines in
    (r.1.image ≡ failing.image) ⊎ (r.1.faulted ≡ true) ⊎ (r.1.poisoned ≡ true)
write_at_unacknowledged_example =
    write_at_unacknowledged (with_faults memory) libraries failing 512 nines
      (λ e. ground (arith, write_fails)) (λ e. ground (arith, write_fails))

abbrev faulted : UnlockedVolume memory
faulted = record rw_volume { faulted = true }

faulted-IsBroken : IsBroken faulted
faulted-IsBroken = record { broken = inl refl }

write_at-IsBroken_example :
    let r = write_at memory libraries faulted 512 nines in
    (r.0 ≢ ok tt) × IsBroken r.1 × (r.1.image ≡ faulted.image)
write_at-IsBroken_example = write_at-IsBroken memory libraries faulted faulted-IsBroken 512 nines
