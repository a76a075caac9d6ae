-- ===== src/Tests.antt =====
-- Concrete runs of the program, and the theorems at them.
mod World
mod Volumes
mod Documents
mod Filesystems
mod Images
mod Unlocking
mod Serving
mod Concurrent
mod Opening
mod Programs
mod Slots
mod Keys
mod Trials
