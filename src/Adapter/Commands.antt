-- ===== src/Adapter/Commands.antt =====
-- Single commands of src/adapter.rs, on every branch that refuses them.
use winluks.Base.{ℕ, ◌≡◌, ◌≢◌, true, List, arith}
use winluks.Error.{Error, stopping, ok, err}
use winluks.Image.Os.{Backend}
use winluks.Image.{AccessMode}
use winluks.Crypto.Primitives.{Libraries}
use winluks.Adapter.{BlockAdapter, inner, read, write, unmap, flush}

module _ (B : Backend) (P : Libraries) (a : BlockAdapter B) where
  -- Once stopped, an adapter answers reads and flushes with the error of stopping, acknowledges no
  -- write and no unmap, and leaves its volume as it is.
  pub stopped_idle :
      a.stopped ≡ true
      → (lba count : ℕ) (bytes : List ℕ)
      → ((read B P a lba count).0 ≡ err stopping)
        × ((write B P a lba bytes).0 ≢ ok tt)
        × ((flush B a lba count).0 ≡ err stopping)
        × ((unmap B a).0 ≢ ok tt)
        × ((read B P a lba count).1.volume ≡ a.volume)
        × ((write B P a lba bytes).1.volume ≡ a.volume)
        × ((flush B a lba count).1.volume ≡ a.volume)
        × ((unmap B a).1.volume ≡ a.volume)
  unfolding read write flush unmap
  stopped_idle s lba count bytes = ground arith

  -- In a read-only session writes and unmaps are refused as read-only and leave the volume as it
  -- is.
  pub read_only_refuses :
      (inner B a).image.mode ≡ AccessMode.read_only
      → (lba : ℕ) (bytes : List ℕ)
      → ((write B P a lba bytes).0 ≡ err Error.read_only)
        × ((unmap B a).0 ≡ err Error.read_only)
        × ((write B P a lba bytes).1.volume ≡ a.volume)
        × ((unmap B a).1.volume ≡ a.volume)
  unfolding write unmap
  read_only_refuses m lba bytes = ground arith
