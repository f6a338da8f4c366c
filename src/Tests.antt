-- ===== src/Tests.antt =====
-- The theorems at concrete inputs, and runs of the definitions.
mod Ring
mod Configure
mod Fifo
mod Drain
mod Disorder
mod Format
mod Record
mod Pipeline
mod Timestamp
mod Segments
mod Slot
mod Poll
mod Sink
mod Render
