-- ===== src/Adapter/Windows.antt =====
-- src/adapter/windows.rs: the callbacks of the virtual disk's driver, and the loop that serves it.
pub mod Callbacks
pub mod Flagged
pub mod Reach
pub mod Buffers
pub mod History
pub mod Serve
pub mod Ends
pub mod Driven
pub mod Course
pub mod Served
pub mod Clean
pub mod Consumer
pub mod Sticky
pub mod Stopped
pub mod Threads
