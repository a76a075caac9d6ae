-- ===== src/Tests/Serving.antt =====
-- A driver that writes a block in every pause of the server, and the server over it.
use winluks.Base.{ℕ, ◌+◌, ◌*◌, ◌≡◌, ◌≢◌, ◌⊎◌, refl, inl, true, false, List, [], ◌∷◌, arith}
use winluks.Base.{replicate, ltb, leb, ◌==◌, if◌then◌else◌, some}
use winluks.Error.{Outcome, ok, unfinished}
use winluks.Image.{AccessMode}
use winluks.Image.Memory.{memory, memory-IsFile, memory-IsPatient}
use winluks.Crypto.Primitives.{Libraries}
use winluks.Probe.{Filesystem}
use winluks.Volume
use winluks.Volume.{ValidatedVolume, write_at, write_locked, out_of_range}
use winluks.Volume.Payload.{Shows}
use winluks.Adapter
use winluks.Adapter.{Host, inner, mark_faulted, new_adapter}
use winluks.Adapter.Windows.Callbacks.{write_request, status_of}
use winluks.Adapter.Windows.Reach.{Callback, Event, event, call, start, called, AllTell, disk_of}
use winluks.Adapter.Windows.History.{Reaches-AllTell}
use winluks.Adapter.Windows.Serve.{Shim, Server, discover, serve}
use winluks.Adapter.Windows.Ends.{IsClock, IsAttended, discover-ne-unfinished, serve-ne-unfinished}
use winluks.Adapter.Windows.Sticky.{NoneDone, lost-NoneDone}
use winluks.Adapter.Windows.Stopped.{stopped-NoneDone}
use winluks.Adapter.Windows.Driven.{IsDriver}
use winluks.Tests.World.{
  libraries, libraries-IsCipher, shown, volume, volume-IsPlaced, volume-Shows, adapter,
}

abbrev pub block_write : Callback
block_write = Callback.write 1 1 (some (replicate 512 9))

-- The world counts the pauses. The volume is there after the first, and Ctrl+C comes in the second.
abbrev pub shim_of : Libraries → Shim memory ℕ
shim_of P = record {
  set_handler = λ s. (true, s);
  create = λ n read_only s. (0, s);
  wl_error = λ s. (if ltb s.outside.world 5 then 0 else 1, s);
  wl_close = λ s. (0, s);
  wl_volume_ready = λ s. (if s.outside.world == 0 then 21 else 0, s);
  wl_lock_and_dismount = λ s. (0, 2, s);
  now = λ s. (s.outside.world * 100, s);
  sleep = λ s. record {
    adapter = (call memory P s.adapter block_write).adapter;
    outside = record { world = s.outside.world + 1; quit = leb 1 s.outside.world };
  };
}

abbrev shim : Shim memory ℕ
shim = shim_of libraries

shim-IsClock : IsClock memory shim
shim-IsClock = record {
  time = λ s. s.outside.world * 100;
  now-time = λ s. refl;
  now-later = λ s. omega arith;
  wl_error-later = λ s. omega arith;
  wl_volume_ready-later = λ s. omega arith;
  sleep-later = λ s. omega arith;
}

-- Ctrl+C is pressed in the second pause from the start, and in any later one.
shim-IsAttended : IsAttended memory shim
shim-IsAttended = record {
  count = 2;
  pressed = λ s. ground arith;
  wl_error-quit = λ s q. q;
  unblocked = λ s. refl;
}

pub shim_of-IsDriver : (P : Libraries) → IsDriver memory P (shim_of P)
shim_of-IsDriver P = record {
  set_handler-Follows = λ s. record { history = []; reached = start };
  create-Follows = λ n read_only s. record { history = []; reached = start };
  wl_error-Follows = λ s. record { history = []; reached = start };
  wl_close-Follows = λ s. record { history = []; reached = start };
  wl_volume_ready-Follows = λ s. record { history = []; reached = start };
  wl_lock_and_dismount-Follows = λ s. record { history = []; reached = start };
  now-Follows = λ s. record { history = []; reached = start };
  sleep-Follows = λ s. record {
    history = event memory P s.adapter block_write ∷ [];
    reached = called start block_write;
  };
}

abbrev valid : ValidatedVolume memory
valid = record { volume = volume AccessMode.read_write; filesystem = Filesystem.btrfs }

abbrev tested : Filesystem → AccessMode → Outcome (Unit {0})
tested fs mode = ok tt

abbrev server : Server memory shim
server = record { adapter = new_adapter memory valid; outside = record { world = 0; quit = false } }

discover-ne-unfinished_example : (discover memory shim 301 30000 21 server).0 ≢ unfinished
discover-ne-unfinished_example =
    discover-ne-unfinished memory shim shim-IsClock 300 30000 21 server (omega arith)

serve-ne-unfinished_example : (serve memory shim tested 3 valid 0).0 ≢ unfinished
unfolding shim-IsAttended
serve-ne-unfinished_example =
    serve-ne-unfinished memory shim shim-IsClock shim-IsAttended tested valid 0 (λ e. cc)

-- A write, and then a read of the same block into a buffer that held something else.
abbrev pub block_read : Callback
block_read = Callback.read 1 1 (some (replicate 600 1))

abbrev written : Event
written = event memory libraries (adapter AccessMode.read_write) block_write

abbrev after : Adapter.BlockAdapter memory
after = (call memory libraries (adapter AccessMode.read_write) block_write).adapter

abbrev history : List Event
history = event memory libraries after block_read ∷ written ∷ []

Reaches-AllTell_example :
    AllTell shown history
    × (((inner memory (call memory libraries after block_read).adapter).faulted ≡ true)
        ⊎ Shows memory-IsFile libraries
            (inner memory (call memory libraries after block_read).adapter)
            (disk_of shown history))
Reaches-AllTell_example =
    Reaches-AllTell memory memory-IsFile memory-IsPatient libraries libraries-IsCipher shown
      (volume-IsPlaced AccessMode.read_write) (volume-Shows AccessMode.read_write)
      (record { flagged = inl refl }) (called (called start block_write) block_read)

-- A session that has lost a write, and a read after the write that tells of it.
abbrev broken : Adapter.BlockAdapter memory
broken = mark_faulted memory (adapter AccessMode.read_write)

abbrev after_loss : Adapter.BlockAdapter memory
after_loss = (call memory libraries broken block_write).adapter

lost : (call memory libraries broken block_write).status ≡ ok 5
unfolding call write_request Adapter.write write_at write_locked out_of_range status_of
lost = refl

lost-NoneDone_example :
    ((inner memory (call memory libraries after_loss block_read).adapter).faulted ≡ true)
    × NoneDone (event memory libraries after_loss block_read ∷ [])
lost-NoneDone_example =
    lost-NoneDone memory libraries broken block_write lost (called start block_read)

-- A session that was stopped, and a write that comes late.
abbrev stopped : Adapter.BlockAdapter memory
stopped = Adapter.stop memory (adapter AccessMode.read_write)

is_stopped : stopped.stopped ≡ true
unfolding Adapter.stop
is_stopped = refl

stopped-NoneDone_example :
    ((call memory libraries stopped block_write).adapter.stopped ≡ true)
    × ((inner memory (call memory libraries stopped block_write).adapter).image
        ≡ (inner memory stopped).image)
    × NoneDone (event memory libraries stopped block_write ∷ [])
stopped-NoneDone_example =
    stopped-NoneDone memory libraries stopped is_stopped (called start block_write)
