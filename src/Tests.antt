-- ===== src/Tests.antt =====
-- The theorems at concrete inputs.
mod Buffers
mod Lists
mod Segments
mod Wire
mod Tasks
mod Address
mod Exchange
mod Closing
mod Waiting
mod Threads
mod Scheduling
mod Board
mod Frames
mod Queues
mod Program
