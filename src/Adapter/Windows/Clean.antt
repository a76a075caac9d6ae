-- ===== src/Adapter/Windows/Clean.antt =====
-- The image after a `serve` of src/adapter/windows.rs that reports success.
use winluks.Base.{◌≡◌, ◌⊎◌, true, List, ◌++◌, not}
use winluks.Base.Contents.{Contents}
use winluks.Image.Os.{Backend, IsFile}
use winluks.Image.{is_read_write}
use winluks.Crypto.Primitives.{Libraries}
use winluks.Volume.Payload.{Shows}
use winluks.Adapter
use winluks.Adapter.{inner, shutdown}
use winluks.Adapter.Windows.Reach.{Event, disk_of, AllTell, Reaches}
use winluks.Adapter.Windows.Serve.{Shim, Server}
use winluks.Adapter.Windows.Driven.{IsDriver}
use winluks.Adapter.Windows.Sticky.{NoneDone}
use winluks.Adapter.Windows.Course.{Course}

module _ (B : Backend) (P : Libraries) {W : Type 0} (S : Shim B W) (D : IsDriver B P S) where
  -- The end of a session for writing: the volume was dismounted, and then shut at once.
  pub record IsUnmounted (first : Server B S) (earlier : List Event) (s : Server B S) : Type 0 where
    pub asked : Server B S
    pub course : Course B S first asked
    pub success : (S.wl_lock_and_dismount asked).0 ≡ 0
    pub reached : Reaches B P first.adapter earlier (S.wl_lock_and_dismount asked).2.adapter
    pub ended : s ≡ (shutdown B (S.wl_lock_and_dismount asked).2 S.wl_close).1

  -- What the image holds at the end of a session, and how it came to be. The history has an earlier
  -- part, and the part while the stopped session is closed.
  pub record IsClean (L : IsFile B) (first : Server B S) (disk : Contents) (s : Server B S)
      : Type 0 where
    pub earlier : List Event
    pub closing : List Event
    pub reached : Reaches B P first.adapter (closing ++ earlier) s.adapter
    pub told : AllTell disk (closing ++ earlier)
    pub silent : NoneDone closing
    pub shown : Shows L P (inner B s.adapter) (disk_of disk (closing ++ earlier))
    pub dismounted :
        (not (is_read_write (inner B first.adapter).image.mode) ≡ true)
        ⊎ IsUnmounted first earlier s
