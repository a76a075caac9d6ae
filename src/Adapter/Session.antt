-- ===== src/Adapter/Session.antt =====
-- A whole session of src/adapter.rs against a plain disk: any sequence of commands, whatever the
-- backend makes of them.
use winluks.Base.{ℕ, ◌*◌, ◌≡◌, inl, refl, List, [], ◌∷◌}
use winluks.Base.Contents.{Contents, slice, overwrite}
use winluks.Error.{Outcome, ok, err, panic, unfinished}
use winluks.Image.Os.{Backend, IsFile, IsPatient}
use winluks.Crypto.Primitives.{Libraries, IsCipher}
use winluks.Volume.Payload.{IsPlaced, Shows}
use winluks.Adapter
use winluks.Adapter.{BlockAdapter, inner}
use winluks.Adapter.Disk.{Holds, read-Holds, read_honest, write-Holds, flush-Holds}

-- The commands of the block device, in units of 512 bytes, and the order to stop.
pub data Command : Type 0 where
  read : ℕ → ℕ → Command
  write : ℕ → List ℕ → Command
  flush : ℕ → ℕ → Command
  unmap stop : Command

-- What one reply says of the disk before and after it. Only what was acknowledged counts.
abbrev pub after : Contents → Command → Outcome (List ℕ) → Contents
after disk (Command.write lba bytes) (ok _) = overwrite disk (lba * 512) bytes
after disk _ _ = disk

abbrev pub IsHonest : Contents → Command → Outcome (List ℕ) → Type 0
IsHonest disk (Command.read lba count) (ok bytes) = bytes ≡ slice disk (lba * 512) (count * 512)
IsHonest disk _ _ = Unit

-- The replies, one after the other, are those of a disk that holds `disk` at first.
abbrev pub Explains : Contents → List (Command × Outcome (List ℕ)) → Type 0
Explains disk [] = Unit
Explains disk ((c, r) ∷ rest) = IsHonest disk c r × Explains (after disk c r) rest

module _ (B : Backend) (P : Libraries) where
  abbrev no_bytes : Outcome (Unit {0}) × BlockAdapter B → Outcome (List ℕ) × BlockAdapter B
  no_bytes (ok _, a) = (ok [], a)
  no_bytes (err e, a) = (err e, a)
  no_bytes (panic, a) = (panic, a)
  no_bytes (unfinished, a) = (unfinished, a)

  pub perform : BlockAdapter B → Command → Outcome (List ℕ) × BlockAdapter B
  perform a (Command.read lba count) = Adapter.read B P a lba count
  perform a (Command.write lba bytes) = no_bytes (Adapter.write B P a lba bytes)
  perform a (Command.flush lba count) = no_bytes (Adapter.flush B a lba count)
  perform a Command.unmap = no_bytes (Adapter.unmap B a)
  perform a Command.stop = (ok [], Adapter.stop B a)

  pub run : BlockAdapter B → List Command → List (Command × Outcome (List ℕ))
  run a [] = []
  run a (c ∷ cs) = let (r, b) = perform a c in (c, r) ∷ run b cs

module _ (B : Backend) (L : IsFile B) (patient : IsPatient B) (P : Libraries) (C : IsCipher P) where
  -- What a step owes: a reply that the disk explains, and a state that holds the disk afterwards.
  Owed : BlockAdapter B → Contents → Command → Type 0
  Owed a disk c =
      let (r, b) = perform B P a c in
      IsHonest disk c r × Holds B L patient P C (inner B b) (after disk c r)

  read-Owed :
      (a : BlockAdapter B) (disk : Contents) (lba count : ℕ)
      → Holds B L patient P C (inner B a) disk
      → Owed a disk (Command.read lba count)
  unfolding Owed perform
  read-Owed a disk lba count h = by_reply (Adapter.read B P a lba count).0 refl
    where
      held : Holds B L patient P C (inner B (Adapter.read B P a lba count).1) disk
      held = read-Holds B L patient P C a disk lba count h

      by_reply :
          (r : Outcome (List ℕ))
          → (Adapter.read B P a lba count).0 ≡ r
          → IsHonest disk (Command.read lba count) (Adapter.read B P a lba count).0
            × Holds B L patient P C
                (inner B (Adapter.read B P a lba count).1)
                (after disk (Command.read lba count) (Adapter.read B P a lba count).0)
      by_reply (ok bytes) e = (rw e (read_honest B L patient P C a disk lba count bytes h e), held)
      by_reply (err x) e = (rw e tt, held)
      by_reply panic e = (rw e tt, held)
      by_reply unfinished e = (rw e tt, held)

  write-Owed :
      (a : BlockAdapter B) (disk : Contents) (lba : ℕ) (bytes : List ℕ)
      → Holds B L patient P C (inner B a) disk
      → Owed a disk (Command.write lba bytes)
  unfolding Owed perform
  write-Owed a disk lba bytes h =
      by_reply (Adapter.write B P a lba bytes).0 (Adapter.write B P a lba bytes).1
        (write-Holds B L patient P C a disk lba bytes _ h refl)
    where
      by_reply :
          (r : Outcome (Unit {0})) (b : BlockAdapter B)
          → Holds B L patient P C
              (inner B b)
              (elim r [ ok _ ↦ overwrite disk (lba * 512) bytes | _ ↦ disk ])
          → IsHonest disk (Command.write lba bytes) (no_bytes B P (r, b)).0
            × Holds B L patient P C
                (inner B (no_bytes B P (r, b)).1)
                (after disk (Command.write lba bytes) (no_bytes B P (r, b)).0)
      by_reply (ok t) b k = (tt, k)
      by_reply (err x) b k = (tt, k)
      by_reply panic b k = (tt, k)
      by_reply unfinished b k = (tt, k)

  no_bytes-adapter : (s : Outcome (Unit {0}) × BlockAdapter B) → (no_bytes B P s).1 ≡ s.1
  no_bytes-adapter (ok t, b) = refl
  no_bytes-adapter (err x, b) = refl
  no_bytes-adapter (panic, b) = refl
  no_bytes-adapter (unfinished, b) = refl

  perform-Owed :
      (a : BlockAdapter B) (disk : Contents) (c : Command)
      → Holds B L patient P C (inner B a) disk
      → Owed a disk c
  unfolding Owed perform Adapter.unmap Adapter.stop
  perform-Owed a disk (Command.read lba count) h = read-Owed a disk lba count h
  perform-Owed a disk (Command.write lba bytes) h = write-Owed a disk lba bytes h
  perform-Owed a disk (Command.flush lba count) h =
      (tt, rw no_bytes-adapter (flush-Holds B L patient P C a disk lba count h))
  perform-Owed a disk Command.unmap h = (tt, h)
  perform-Owed a disk Command.stop h = (tt, h)

  run-Explains :
      (cs : List Command) (a : BlockAdapter B) (disk : Contents)
      → Holds B L patient P C (inner B a) disk
      → Explains disk (run B P a cs)
  unfolding run Owed
  run-Explains [] a disk h = tt
  run-Explains (c ∷ cs) a disk h =
      let owed = perform-Owed a disk c h in
      (owed.0, run-Explains cs (perform B P a c).1 (after disk c (perform B P a c).0) owed.1)

  -- Over any sequence of commands the replies of a session are those of a plain disk: each
  -- acknowledged read returns what that disk holds, with exactly the acknowledged writes put in
  -- their places, whichever calls of the backend fail, fall short, are interrupted or panic. It
  -- holds for an adapter of which the volume has its payload in whole sectors inside the image and
  -- at first shows the disk, over a backend that behaves as a file and of which the interruptions
  -- end, and a cipher that decrypts what it encrypted.
  pub session-Explains :
      (a : BlockAdapter B) (disk : Contents) (cs : List Command)
      → IsPlaced (inner B a)
      → Shows L P (inner B a) disk
      → Explains disk (run B P a cs)
  session-Explains a disk cs placed shows =
      run-Explains cs a disk (record { placed = placed; state = inl shows })
