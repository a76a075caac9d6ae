-- ===== src/Program.antt =====
-- src/main.rs: the two commands of the program, from the opening of an image to its service.
pub mod Clean
use winluks.Base.{
  ℕ, Bool, true, false, List, [], ◌∷◌, not, ◌==◌, ◌||◌, Option, none, some, if◌then◌else◌,
}
use winluks.Error.{Error, Result, Outcome, ok, err, panic, unfinished}
use winluks.Error.{unsupported_profile, fs_driver_unavailable, console_required}
use winluks.Image.Os.{Backend}
use winluks.Image.{Image, AccessMode}
use winluks.Image.Open.{FileSystem, open_unix, open_windows}
use winluks.Crypto.Primitives.{Libraries}
use winluks.Metadata.{Metadata, slot_ids}
use winluks.Metadata.Header
use winluks.Metadata.Header.{Codecs}
use winluks.Probe.{Filesystem}
use winluks.Volume.{UnlockedVolume, ValidatedVolume, validate}
use winluks.Volume.Unlock.{unlock}
use winluks.Adapter
use winluks.Adapter.Windows.Consumer
use winluks.Adapter.Windows.Consumer.{Consumer}
use winluks.Adapter.Windows.Serve.{Shim, Server, serve}

-- `Command::Open`, without the flag that only excludes the other one.
pub record OpenCommand : Type 0 where
  pub image : Option (List ℕ)
  pub keyslot : ℕ
  pub filesystem : Filesystem
  pub read_write : Bool

abbrev pub mode_of : Bool → AccessMode
mode_of true = AccessMode.read_write
mode_of false = AccessMode.read_only

-- `slice::contains`
abbrev pub has_slot : ℕ → List ℕ → Bool
has_slot k [] = false
has_slot k (x ∷ xs) = x == k || has_slot k xs

-- Everything below the program.
pub record Machine (B : Backend) (W : Type 0) : Type 0 where
  pub files : FileSystem B
  pub libraries : Libraries
  pub codecs : Codecs
  pub crc32c : List ℕ → ℕ
  -- a page for the key can be allocated, and locked
  pub allocated : Bool
  pub locked : Bool
  pub consumer : Consumer
  -- `stdin().is_terminal()`, and the bytes of `prompt_password`
  pub terminal : Bool
  pub password : Option (List ℕ)
  pub shim : Shim B W
  pub world : W

module _ (B : Backend) {W : Type 0} (M : Machine B W) where
  -- What `inspect` prints of the metadata: the length of the volume and its keyslots.
  abbrev report : Outcome Metadata × Image B → Outcome (ℕ × List ℕ)
  report (ok m, im) = ok (m.length, slot_ids m)
  report (err e, im) = err e
  report (panic, im) = panic
  report (unfinished, im) = unfinished

  abbrev inspect_image : Result (Image B) → Outcome (ℕ × List ℕ)
  inspect_image (err e) = err e
  inspect_image (ok im) = report (Header.read M.codecs M.libraries B im)

  -- `run` of the command `inspect`, in the Windows build.
  unfoldable pub inspect : Option (List ℕ) → Outcome (ℕ × List ℕ)
  inspect path = inspect_image (open_windows M.files path AccessMode.read_only)

  -- And in the others.
  unfoldable pub inspect_elsewhere : List ℕ → Outcome (ℕ × List ℕ)
  inspect_elsewhere path = inspect_image (open_unix M.files path AccessMode.read_only)

  -- The result of `open`, with the server if it came to serve.
  abbrev pub Served : Type 0
  Served = Outcome (Unit {0}) × Option (Server B M.shim)

  abbrev pub serve_volume : ℕ → Outcome (ValidatedVolume B) → Served
  serve_volume fuel (ok valid) =
      let (r, s) =
        serve B M.shim (Adapter.check_consumer (some (Consumer.check_consumer M.files M.consumer)))
          fuel valid M.world in
      (r, some s)
  serve_volume fuel (err e) = (err e, none)
  serve_volume fuel panic = (panic, none)
  serve_volume fuel unfinished = (unfinished, none)

  abbrev pub validate_volume : ℕ → Filesystem → Outcome (UnlockedVolume B) → Served
  validate_volume fuel fs (ok v) = serve_volume fuel (validate B M.libraries M.crc32c v fs).0
  validate_volume fuel fs (err e) = (err e, none)
  validate_volume fuel fs panic = (panic, none)
  validate_volume fuel fs unfinished = (unfinished, none)

  abbrev pub with_password : ℕ → OpenCommand → Image B → Option (List ℕ) → Served
  with_password fuel c im none = (err console_required, none)
  with_password fuel c im (some password) =
      validate_volume fuel c.filesystem
        (unlock M.codecs M.libraries B M.allocated M.locked im c.keyslot password)

  abbrev pub with_consumer : ℕ → OpenCommand → Image B → Outcome (Unit {0}) → Served
  with_consumer fuel c im (ok _) =
      if not M.terminal then (err console_required, none) else with_password fuel c im M.password
  with_consumer fuel c im (err e) = (err e, none)
  with_consumer fuel c im panic = (panic, none)
  with_consumer fuel c im unfinished = (unfinished, none)

  -- The metadata are read for the keyslots only; `unlock` reads them again.
  abbrev pub with_metadata : ℕ → OpenCommand → Outcome Metadata × Image B → Served
  with_metadata fuel c (ok m, im) =
      if not (has_slot c.keyslot (slot_ids m))
      then (err unsupported_profile, none)
      else with_consumer fuel c im (
          Adapter.check_consumer (some (Consumer.check_consumer M.files M.consumer)) c.filesystem
            (mode_of c.read_write))
  with_metadata fuel c (err e, im) = (err e, none)
  with_metadata fuel c (panic, im) = (panic, none)
  with_metadata fuel c (unfinished, im) = (unfinished, none)

  abbrev pub with_image : ℕ → OpenCommand → Result (Image B) → Served
  with_image fuel c (err e) = (err e, none)
  with_image fuel c (ok im) = with_metadata fuel c (Header.read M.codecs M.libraries B im)

  -- `run` of the command `open`, in the Windows build.
  unfoldable pub open_command : ℕ → OpenCommand → Served
  open_command fuel c = with_image fuel c (open_windows M.files c.image (mode_of c.read_write))

  -- And in the others, which publish nothing.
  abbrev elsewhere : OpenCommand → Outcome Metadata × Image B → Outcome (Unit {0})
  elsewhere c (ok m, im) =
      if not (has_slot c.keyslot (slot_ids m))
      then err unsupported_profile
      else err fs_driver_unavailable
  elsewhere c (err e, im) = err e
  elsewhere c (panic, im) = panic
  elsewhere c (unfinished, im) = unfinished

  abbrev elsewhere_image : OpenCommand → Result (Image B) → Outcome (Unit {0})
  elsewhere_image c (err e) = err e
  elsewhere_image c (ok im) = elsewhere c (Header.read M.codecs M.libraries B im)

  unfoldable pub open_elsewhere : List ℕ → OpenCommand → Outcome (Unit {0})
  open_elsewhere path c = elsewhere_image c (open_unix M.files path (mode_of c.read_write))
