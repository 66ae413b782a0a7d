-- ===== src/Examples.antt =====
-- The theorems at concrete inputs: scripts, messages on the wire, and chains of blocks.
mod Toy
mod Scripts
mod Wire
mod Chain
mod Validation
mod Blocks
mod Pool
mod Organizer
mod Network
mod Poller
mod Session
