-- ===== src/Memory.antt =====
-- The program with the blocks that it allocates.
pub mod Heap
pub mod Objects
pub mod Matches
pub mod Blocks
pub mod Makes
pub mod Context
pub mod Life
pub mod Values
pub mod Reads
pub mod Peers
pub mod Receiving
pub mod Controls
pub mod Looks
pub mod Delivers
pub mod Handles
pub mod Arriving
pub mod Acks
pub mod Datagrams
pub mod Sending
pub mod Transmits
pub mod Aging
pub mod Resends
pub mod Buries
pub mod Sends
pub mod Process
pub mod Story
pub mod Collects
pub mod Dangles
