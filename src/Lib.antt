-- ===== src/Lib.antt =====
-- winluks: a read-write LUKS2 volume behind a virtual block device.
--
-- The program opens a disk image (src/image.rs), reads and checks its two LUKS2 headers
-- (src/metadata.rs, with the JSON of src/strict_json.rs), derives the key of a keyslot and from it
-- the volume key (src/crypto.rs), and keeps an unlocked volume (src/volume.rs) that decrypts reads
-- and encrypts writes. A volume is published only if its filesystem is one that src/probe.rs
-- accepts. src/adapter.rs turns the commands of the virtual disk into calls on the volume, and
-- src/adapter/windows.rs serves it to a driver until it is closed. src/main.rs is the program.
--
-- Base: shared numbers, lists, words of 64 bits, and contents, which are functions from positions
-- to bytes. Base/Contents holds the slices and overwrites that every byte-level statement speaks
-- of.
--
-- Error: src/error.rs, and the results of functions. `Outcome` adds to ok and error a panic of the
-- code or of a call below it, and `unfinished`, which is fuel run out.
--
-- Image: `Image::write_all_at`, `Image::sync` and `Image::read_exact_at` of src/image.rs. The
-- operating system's file is the parameter `Backend` of Image/Os, with what is relied on as the
-- records `IsFile`, `IsPatient` and `IsCalm`. Image/Memory is a backend that meets them.
-- Image/Fault is the injector of src/image/fault.rs as a backend over another backend. Image/Loops
-- and Image/Rounds carry properties through the loops, Image/Access states them for the operations.
-- Image/Open is `Image::open_with_mode` of both builds, over the parameter `FileSystem`.
-- Image/Sharing is about the access and the share modes of its options on Windows.
--
-- Crypto: src/crypto.rs over the parameter `Libraries` of Crypto/Primitives, which stands for
-- OpenSSL and argon2; `IsCipher` is what is relied on of AES-XTS. Crypto/Sectors is about
-- `crypt_sectors`, Crypto/KeyPage about the page of `VolumeKey` and its `Drop`.
--
-- StrictJson: the visitor of src/strict_json.rs. A document is the tree of calls that serde_json
-- makes on the visitor; the grammar of the text is a parameter. StrictJson/Strict is about depths,
-- StrictJson/Distinct about keys.
--
-- Metadata: `Metadata::from_json` of src/metadata.rs, in the order of its checks, with
-- Metadata/Fields for the accessors, Segments, Keyslots, Kdfs and Digests for the parts of the
-- document, and Header for `header` and `Metadata::read`. Metadata/Areas is about the places of key
-- material, Decimals and Names about numbers in texts and the names of keyslots. UTF-8, UUID, JSON
-- grammar and base64 are the parameter `Codecs`. Metadata/Origin gives the metadata as a function
-- of the bytes of the image.
--
-- Probe: `check`, `ext4` and `btrfs` of src/probe.rs over any reader; the checksum is a parameter.
--
-- Volume: `UnlockedVolume` of src/volume.rs. `IsPlaced` and `Shows` of Volume/Payload say where the
-- payload lies and which disk it decrypts to. The mutex is the flag `poisoned`: calls take the lock
-- for their whole length, so a session is a sequence of calls, and what outlives a call is whether
-- a panic has poisoned the lock. Volume/Unlock is `UnlockedVolume::unlock`, and Unlocked what it
-- gives. Volume/Plain says which disk an unlocked volume shows, Volume/Origin where it comes from,
-- and Volume/Ready what validation leaves of it. Sizes is about the length of the file, Endings
-- about fuel.
--
-- Adapter: `BlockAdapter` of src/adapter.rs. Adapter/Session runs sequences of commands against a
-- plain disk; Adapter/Disk holds what one command does to it, and Adapter/Lost the sticky fault.
--
-- Adapter/Windows: src/adapter/windows.rs. Callbacks has `read_cb`, `write_cb` and `control_cb`
-- over buffers that are null or bytes. Reach is the relation of adapters that callbacks and the
-- server reach, with the events on the way; History follows a disk along it, Sticky the fault.
-- Serve is `serve` over the parameter `Shim`, the entry points of native/, the clock and Ctrl+C:
-- each call may let callbacks through, and `IsDriver` of Driven says that it does no more to the
-- adapter. `Course` of Course is the relation of the states that these calls lead to. Ends is about
-- the loops, Stopped about what follows the stop, Served and Clean about the result, with
-- `IsUnmounted` of Clean for the dismount and the close after it. Consumer is `check_consumer`.
-- Buffers has what is known of the callbacks' buffers.
--
-- Adapter/Windows/Threads: the same callbacks on many threads at once. Each is its tests, the call
-- on the volume, which is one step because it runs under the volume's lock, and after a panic the
-- setting of the fault. `Step` interleaves these steps of all threads with stops and faults of the
-- server. Alone compares the steps of one thread with the callback as a whole; Works and Timely
-- carry what holds of a step along a run, for Linear and for Broken.
--
-- Program: `run` of src/main.rs with both commands, over the parameter `Machine`.
--
-- Oracles: the two programs of examples/ that run the library against a fixture. `Trial` is how a
-- run ends: with a value, an error, a failed assertion or a panic. Oracles/Rw is rw_oracle.rs, from
-- the opening of the image on: Prefix is its digest of the bytes before the payload, Session what
-- its commands leave as it was, Refusals the calls that must be refused, Upheld the session and
-- Passes the whole run. Oracles/Ro is oracle.rs: Intact is about single reads, Whole about the
-- digest of the volume, Ranges about the end of the volume and the plaintext, and Upheld about the
-- rest. Reopening says what is relied on of the file system, Digest takes the digest of contents in
-- chunks. The hash is the parameter `Hasher`.
--
-- Fuel: the loops of src/image.rs run on `enough_fuel`, one more than the bytes to move and the
-- interruptions still to come, since each round moves a byte at least, is interrupted, or ends the
-- loop. The wait for the volume has 301 rounds, one more than the pauses of 100 ms in its 30
-- seconds. The loop over a published volume goes on until Ctrl+C, so its fuel is an argument, one
-- more than the pauses within which `IsAttended` of Ends has Ctrl+C pressed. The digests of the
-- oracles have a round for each byte and one more, since a round moves a byte at least. Integers
-- are natural numbers, with the checked additions and subtractions of the source written out;
-- metadata numbers are below 2 ^ 64 where the source parses them.
--
-- Not modelled: native/, of which the entry points are parameters, the wiping of other memory than
-- the key page, argument parsing and what is printed, the tests, the arguments and reports of the
-- oracles, the read oracle's last hash, which goes past the library, and effects of weak memory
-- between threads: the flags are read and written as if at once by all.
pub mod Base
pub mod Error
pub mod Image
pub mod Crypto
pub mod StrictJson
pub mod Metadata
pub mod Probe
pub mod Volume
pub mod Adapter
pub mod Program
pub mod Oracles
pub mod Tests
