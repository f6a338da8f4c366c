-- ===== src/Policy.antt =====
-- src/builder.rs: what a logging thread does when its buffer is full.
pub data Backpressure : Type 0 where
  drop block nano_log quill : Backpressure
