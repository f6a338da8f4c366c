-- ===== src/Lib.antt =====
-- The core of ticklog, an asynchronous logger: threads write binary records into rings of their own,
-- and one drain thread reads the rings, renders the records and hands the lines to sinks.
--
-- Base, with children Tests, Lists, Addresses, Bits, Powers, Text and Int: names passed on from the libraries,
--   Boolean tests, lists measured by native numbers, lists of addresses, integers, `&` as arithmetic, ASCII literals.
-- Words: wrap-around on u16 and u64, little-endian bytes. Memory: the bytes behind a ring's pointer.
-- Level: src/level.rs. Backoff: src/backoff.rs. Policy: `Backpressure` of src/builder.rs.
-- Configure: `__configure_rt` of src/builder.rs, over the statics that are set once, and src/error.rs.
-- Ring: src/ring.rs, the default ring. The record `Ring` is `RingBuffer`, its storage a function from
--   offsets to bytes; `reserve`, `publish`, `with_capacity` and `reset_for_reuse` carry their names,
--   and `try_ensure_capacity` is split at the loop (`ensure_loop`) and the policies (`on_full`).
--   Ring/Holds states when a ring holds a queue of records; Ring/Frames reads the bytes between two
--   positions as records and fillers; the other children prove what the operations do to that queue.
-- Cursor: the bounded parser of src/drain.rs.
-- Drain: `drain_ring_inner` of src/drain.rs, in a child for one turn and one for the whole pass.
-- Encode: src/encode.rs, the arguments' tags and payloads. Record: `assemble` of src/record.rs, with
--   the record's bytes in a child. Decode: what `decode_and_format` and `format_arg` of src/drain.rs
--   read from a record; pointers stay addresses.
-- Format: src/format.rs, with children for the characters, the checkers (Check), the parser of specs
--   (Parse), padding (Pad) and the line patterns (Template). A position in a text is the rest of the
--   text from there, and texts are lists of bytes.
-- Pipeline: `dispatch` of src/macros.rs, where the ring itself reserves, and the runs of one producer
--   and the drain over a ring.
-- Fifo: the backends under `fifo-backend` in a child each (src/rtrb_backend.rs and its three siblings), the
--   queues of their crates being arguments with laws; the interface `Backend` that they fill, the runs over it,
--   and Fifo/Drain, the pass of src/drain.rs over the staged bytes.
-- Timestamp: src/timestamp.rs, dates and their rendering, with the Gregorian calendar by its leap rule
--   in Timestamp/Calendar.
-- Shared: the objects that the threads share, rings by address; the statics `REGISTRY`, `NEXT_SERIAL`
--   and `SEGMENTS`. Segments: src/segments.rs. Guard: src/guard.rs. ThreadBuf: src/thread_buf.rs, with the
--   thread-local slot and `warm_up` in ThreadBuf/Slot.
-- Poll: `sync_rings`, `poll_once`, `maybe_retire` and `drain_ring` of src/drain.rs; its child Run is
--   `Drain::run`, as a list of events; the other children prove what they do to lists of rings.
-- Render: `interleave`, `format_arg`, the formatters by tag and, in Render/Pattern, `render_pattern` of
--   src/drain.rs; Format/Check/Closing has the search for the closing brace. Render/Message and
--   Render/Pattern/Lines say what a message and a line are, by relations apart from the code.
-- Sink: the adapters of src/sink/mod.rs and the store of src/sink/fast.rs; its children Captured, Lines and
--   Console have the captured record, the sinks over a writer (src/sink/writer.rs, and src/sink/file.rs, whose
--   accept and flush are the same) and src/sink/console.rs.
-- Tests: the theorems at concrete inputs, and runs.
--
-- The producer and the drain meet in a ring: the producer appends what `reserve` and `publish` commit
-- to the queue that Ring/Holds speaks of, and a pass of the drain empties it. The atomics are fields
-- of a state; what the other side does while one side waits is an argument, the list of what the
-- successive loads see, so the theorems hold for every way the other side moves.
--
-- The operations on the shared objects are functions of a state that run as one step each, and what
-- other threads do between or during them is an argument. The drain's visit of one ring is such a step;
-- take_pooled is split at its locks, with the others' moves ahead of each. The build is the one without
-- debug assertions.
--
-- Loops run on fuel: the drain's on one more than the distance to the head, the two parsers' on one
-- more than the length of the text. The loops over the drain's list take its length, and the handoff loop two turns under
-- Quill. Theorems below show that it is enough. The positions of a ring
-- are kept 2^18 below the end of u64, which no run reaches.
--
-- What is made of a record, its bytes or a rendered line, is an argument of the drain's pass; the
-- text that the standard library prints for a value is an argument of the formatters. Not modelled:
-- the memory orderings of the atomics, messages on stderr, files, the start and end of threads, the
-- clock and its calibration, and the arena under vendor/r3.
pub mod Base
pub mod Words
pub mod Memory
pub mod Level
pub mod Backoff
pub mod Policy
pub mod Ring
pub mod Configure
pub mod Fifo
pub mod Cursor
pub mod Drain
pub mod Format
pub mod Encode
pub mod Record
pub mod Decode
pub mod Pipeline
pub mod Timestamp
pub mod Shared
pub mod Segments
pub mod ThreadBuf
pub mod Poll
pub mod Guard
pub mod Sink
pub mod Render
mod Tests
