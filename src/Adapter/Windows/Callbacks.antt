-- ===== src/Adapter/Windows/Callbacks.antt =====
-- The callbacks of src/adapter/windows.rs. The context is null or an adapter; a buffer is null or
-- the bytes from its address on.
use winluks.Base.{ℕ, ◌*◌, Bool, true, false, List, [], ltb, ◌==◌, ◌!=◌, ◌||◌, ◌&&◌, ◌++◌}
use winluks.Base.{Option, none, some, if◌then◌else◌, length, take, drop, replicate}
use winluks.Error.{Error, invalid_range, stopping, writeback_failed, unsupported_operation}
use winluks.Error.{Outcome, ok, err, panic, unfinished}
use winluks.Image.Os.{Backend}
use winluks.Crypto.Primitives.{Libraries}
use winluks.Adapter
use winluks.Adapter.{BlockAdapter, mark_faulted}

-- `code` of an error, and of a result
unfoldable pub status_of : Error → ℕ
status_of Error.read_only = 1
status_of invalid_range = 2
status_of stopping = 3
status_of writeback_failed = 5
status_of unsupported_operation = 6
status_of _ = 4

abbrev pub Buffer : Type 0
Buffer = Option (List ℕ)

abbrev pub is_null : Buffer → Bool
is_null none = true
is_null (some _) = false

-- `ptr::write_bytes(buffer, 0, n)`
abbrev pub clear : ℕ → Buffer → Buffer
clear n none = none
clear n (some m) = some (replicate n 0 ++ drop n m)

-- `ptr::copy_nonoverlapping(bytes, buffer, bytes.len())`
abbrev pub copy : List ℕ → Buffer → Buffer
copy bytes none = none
copy bytes (some m) = some (bytes ++ drop (length bytes) m)

-- `if count != 0`
abbrev pub clear_blocks : ℕ → Buffer → Buffer
clear_blocks count buffer = if count != 0 then clear (count * 512) buffer else buffer

abbrev pub copy_bytes : List ℕ → Buffer → Buffer
copy_bytes bytes buffer = if length bytes != 0 then copy bytes buffer else buffer

-- `slice::from_raw_parts(buffer, n)`
abbrev pub blocks : ℕ → Buffer → List ℕ
blocks count none = []
blocks count (some m) = if count == 0 then [] else take (count * 512) m

-- The arguments that no callback follows a pointer for.
abbrev pub bad_buffer : ℕ → Buffer → Bool
bad_buffer count buffer = ltb 2048 count || (count != 0 && is_null buffer)

-- What a callback returns, and what it leaves behind. `unfinished` is no status: it stands for
-- retries of the backend that never end.
pub record Reply (B : Backend) : Type 0 where
  pub status : Outcome ℕ
  pub buffer : Buffer
  pub adapter : BlockAdapter B

module _ (B : Backend) where
  -- What `catch_unwind` makes of an operation without bytes: a panic is status 5, and a fault.
  abbrev pub caught : Buffer → Outcome (Unit {0}) × BlockAdapter B → Reply B
  caught buffer (ok _, b) = record { status = ok 0; buffer = buffer; adapter = b }
  caught buffer (err e, b) = record { status = ok (status_of e); buffer = buffer; adapter = b }
  caught buffer (panic, b) = record { status = ok 5; buffer = buffer; adapter = mark_faulted B b }
  caught buffer (unfinished, b) = record { status = unfinished; buffer = buffer; adapter = b }

  abbrev pub refused : Buffer → BlockAdapter B → Reply B
  refused buffer a = record { status = ok 2; buffer = buffer; adapter = a }

  -- `control_cb` of an adapter
  unfoldable pub control_request : BlockAdapter B → ℕ → ℕ → ℕ → Reply B
  control_request a op lba count =
      if op == 2
      then caught none (Adapter.flush B a lba count)
      else if op == 3
      then caught none (Adapter.unmap B a)
      else refused none a

  module _ (P : Libraries) where
    -- The outcome of the read in `read_cb`, with the buffer that was cleared before it.
    abbrev pub fill : ℕ → Buffer → Outcome (List ℕ) × BlockAdapter B → Reply B
    fill count cleared (ok bytes, b) = record {
      status = ok 0;
      buffer = copy_bytes bytes cleared;
      adapter = b;
    }
    fill count cleared (err e, b) = record {
      status = ok (status_of e);
      buffer = clear_blocks count cleared;
      adapter = b;
    }
    fill count cleared (panic, b) = record {
      status = ok 5;
      buffer = clear_blocks count cleared;
      adapter = mark_faulted B b;
    }
    fill count cleared (unfinished, b) = record {
      status = unfinished;
      buffer = cleared;
      adapter = b;
    }

    -- `read_cb` of an adapter
    unfoldable pub read_request : BlockAdapter B → ℕ → ℕ → Buffer → Reply B
    read_request a lba count buffer =
        if bad_buffer count buffer
        then refused buffer a
        else fill count (clear_blocks count buffer) (Adapter.read B P a lba count)

    -- `write_cb` of an adapter
    unfoldable pub write_request : BlockAdapter B → ℕ → ℕ → Buffer → Reply B
    write_request a lba count buffer =
        if bad_buffer count buffer
        then refused buffer a
        else caught buffer (Adapter.write B P a lba (blocks count buffer))

  -- The callbacks themselves check the context first, and answer a null one by a status.
  abbrev with_context :
      ℕ → Option (BlockAdapter B) → (BlockAdapter B → Reply B) → Outcome ℕ × Option (Reply B)
  with_context status none call = (ok status, none)
  with_context status (some a) call = let r = call a in (r.status, some r)

  unfoldable pub control_cb : Option (BlockAdapter B) → ℕ → ℕ → ℕ → Outcome ℕ × Option (Reply B)
  control_cb p op lba count = with_context 4 p (λ a. control_request a op lba count)

  unfoldable pub read_cb :
      Libraries → Option (BlockAdapter B) → ℕ → ℕ → Buffer → Outcome ℕ × Option (Reply B)
  read_cb P p lba count buffer = with_context 2 p (λ a. read_request P a lba count buffer)

  unfoldable pub write_cb :
      Libraries → Option (BlockAdapter B) → ℕ → ℕ → Buffer → Outcome ℕ × Option (Reply B)
  write_cb P p lba count buffer = with_context 2 p (λ a. write_request P a lba count buffer)
