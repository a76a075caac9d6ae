-- ===== src/Adapter/Windows/Reach.antt =====
-- Any interleaving of the callbacks of src/adapter/windows.rs with what its server does to the
-- adapter, as a relation between adapters.
use Prim.Native.Nat.{zero, suc}
use winluks.Base.{ℕ, ◌*◌, ◌≡◌, ◌≢◌, ◌⊎◌, true, List, [], ◌∷◌, ◌++◌}
use winluks.Base.{none, some, drop, replicate}
use winluks.Base.Contents.{Contents, slice, overwrite}
use winluks.Error.{Outcome, ok, panic}
use winluks.Image.Os.{Backend}
use winluks.Crypto.Primitives.{Libraries}
use winluks.Adapter
use winluks.Adapter.{BlockAdapter, inner, mark_faulted}
use winluks.Adapter.Windows.Callbacks.{Buffer, Reply, bad_buffer, blocks}
use winluks.Adapter.Windows.Callbacks.{read_request, write_request, control_request}

-- A call of the driver: the block, the count, and the buffer as the driver hands it over.
pub data Callback : Type 0 where
  read write : ℕ → ℕ → Buffer → Callback
  control : ℕ → ℕ → ℕ → Callback

-- A callback, and what the driver sees of its reply.
pub record Event : Type 0 where
  pub callback : Callback
  pub status : Outcome ℕ
  pub buffer : Buffer

-- The first blocks of a buffer replaced.
abbrev pub holding : ℕ → List ℕ → Buffer → Buffer
holding count bytes none = none
holding count bytes (some m) = some (bytes ++ drop (count * 512) m)

-- The disk after a callback: only a write of status 0 counts.
abbrev pub disk_after : Contents → Callback → Outcome ℕ → Contents
disk_after disk (Callback.write lba count buffer) (ok zero) =
    overwrite disk (lba * 512) (blocks count buffer)
disk_after disk _ _ = disk

-- A read of status 0 has put the disk's blocks in the buffer. Any other status leaves zeros there,
-- or the buffer as it was if its arguments were refused.
abbrev pub Tells : Contents → Callback → Outcome ℕ → Buffer → Type 0
Tells disk (Callback.read lba count buffer) (ok zero) seen =
    seen ≡ holding count (slice disk (lba * 512) (count * 512)) buffer
Tells disk (Callback.read lba count buffer) (ok (suc s)) seen =
    ((bad_buffer count buffer ≡ true) × (seen ≡ buffer))
    ⊎ (seen ≡ holding count (replicate (count * 512) 0) buffer)
Tells disk _ _ seen = Unit

-- A history, its latest event first: the disk after it, and whether all its replies tell that disk.
abbrev pub disk_of : Contents → List Event → Contents
disk_of disk [] = disk
disk_of disk (e ∷ es) = disk_after (disk_of disk es) e.callback e.status

abbrev pub AllTell : Contents → List Event → Type 0
AllTell disk [] = Unit
AllTell disk (e ∷ es) = Tells (disk_of disk es) e.callback e.status e.buffer × AllTell disk es

module _ (B : Backend) (P : Libraries) where
  unfoldable pub call : BlockAdapter B → Callback → Reply B
  call a (Callback.read lba count buffer) = read_request B P a lba count buffer
  call a (Callback.write lba count buffer) = write_request B P a lba count buffer
  call a (Callback.control op lba count) = control_request B a op lba count

  abbrev pub event : BlockAdapter B → Callback → Event
  event a c = record { callback = c; status = (call a c).status; buffer = (call a c).buffer }

  -- The adapters that a session reaches, by the events on the way.
  pub data Reaches (a : BlockAdapter B) : List Event → BlockAdapter B → Type 0 where
    start : Reaches a [] a
    called :
        {es : List Event} {b : BlockAdapter B}
        → Reaches a es b
        → (c : Callback) → Reaches a (event b c ∷ es) (call b c).adapter
    marked :
        {es : List Event} {b : BlockAdapter B} → Reaches a es b → Reaches a es (mark_faulted B b)
    flushed :
        {es : List Event} {b : BlockAdapter B}
        → Reaches a es b
        → (lba count : ℕ) → (Adapter.flush B b lba count).0 ≢ panic
        → Reaches a es (Adapter.flush B b lba count).1
    halted :
        {es : List Event} {b : BlockAdapter B} → Reaches a es b → Reaches a es (Adapter.stop B b)
