-- ===== src/Fifo/Drain.antt =====
-- src/drain.rs: `drain_ring` of the byte-queue backends. `staging[pos..]` is the rest of the staged
-- bytes, and the messages on stderr are left out.
pub mod Turns
pub mod Exact
pub mod Returns
use ticklog.Base.{
  ℕ, zero, suc, ◌+◌, ◌*◌, Bytes, Bool, true, false, not, ◌||◌, Option, none, some, List, [], ◌∷◌,
  ◌++◌, ltb, ◌==◌, if◌then◌else◌, length, get_or, take, drop, ◌>>=◌,
}
use ticklog.Drain.{Delivery, deliver}
use ticklog.Ring.{version, log_record, end_of_buffer, header_size}
use ticklog.Words.{from_le_bytes}

-- The locals of the loop.
pub record Pass : Type 0 where
  pub rest : Bytes
  pub had_work : Bool
  pub out : List Delivery

-- `break`, or another turn
pub data Turn : Type 0 where
  stop again : Pass → Turn

-- the little-endian u16 behind version and type
abbrev pub size_of : Bytes → ℕ
size_of s = from_le_bytes (get_or s 2 0 ∷ get_or s 3 0 ∷ [])

abbrev pub after : Turn → (Pass → Option Pass) → Option Pass
after (stop p) next = some p
after (again p) next = next p

abbrev pub close : Option Pass → Option (Bool × Bytes × List Delivery)
close none = none
close (some p) = some (p.had_work, p.rest, p.out)

module _ (payload : Bytes → Bytes) where
  -- The body of the loop, where at least a header is left.
  unfoldable pub turn : Pass → Turn
  turn p =
      let s = p.rest in
      let total_size = size_of s in
      if get_or s 1 0 == end_of_buffer
      then if ltb (length s) total_size
        then stop p
        else again (record p { rest = drop total_size s })
      else if not (get_or s 0 0 == version)
          || not (get_or s 1 0 == log_record)
          || ltb total_size header_size
      then again (record p { rest = drop 1 s })
      else if ltb (length s) total_size
      then stop p
      else again (record {
        rest = drop total_size s;
        had_work = true;
        out = p.out ++ deliver payload (take total_size s) ∷ [];
      })

  -- `while staging.len() - pos >= HEADER_SIZE`, on fuel; `none` means that it ran out
  unfoldable pub staging_loop : ℕ → Pass → Option Pass
  staging_loop zero p = none
  staging_loop (suc fuel) p = elim (ltb (length p.rest) header_size) [
    | true ↦ some p
    | false ↦ after (turn p) (staging_loop fuel)
  ]

  -- What the pass says, what it leaves staged, and the deliveries, where `staging` has the popped
  -- bytes at its end. A turn that goes on takes a byte at least, unless it meets a filler of size 0.
  unfoldable pub drain_staging : Bytes → Option (Bool × Bytes × List Delivery)
  drain_staging staging =
      close (
        staging_loop (suc (length staging)) (record { rest = staging; had_work = false; out = [] }))
