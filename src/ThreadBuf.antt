-- ===== src/ThreadBuf.antt =====
-- src/thread_buf.rs: the registry of rings, a thread's buffer, and the handoff of full segments. The
-- classic ring backend is modelled, where a thread owns its ring behind an `Arc`.
pub mod Refill
pub mod Quill
pub mod Registry
pub mod Name
pub mod Slot
use ticklog.Base.{
  ℕ, zero, suc, ◌+◌, ◌≡◌, ◌&&◌, ◌||◌, ◌++◌, Byte, Bytes, Bool, true, false, not, Option, none, some,
  [], ◌∷◌, List, length, get_elem?, take, ltb, leb, ◌==◌, if◌then◌else◌, has, ◌>>=◌,
}
use ticklog.Policy.{Backpressure}
use ticklog.Ring.{
  Ring, Seen, Reservation, Reserved, reserved, refused, spinning, reserve, with_capacity,
}
use ticklog.Segments.{
  Between, undisturbed, Taken, taken, torn_down, blocked, stuck, try_take_spare, first_ring,
  alloc_fresh, initial_ring, placed,
}
use ticklog.Shared.{Shared, set, update}
use ticklog.Words.{wrapping_add}

abbrev pub max_thread_name_len : ℕ
max_thread_name_len = 256

-- `str::is_char_boundary` on UTF-8: both ends, and each byte that does not continue a character.
unfoldable pub is_char_boundary : Bytes → ℕ → Bool
is_char_boundary s i = if i == 0 then true else at_byte (get_elem? s i)
  where
    at_byte : Option Byte → Bool
    at_byte none = i == length s
    at_byte (some b) = ltb b 128 || leb 192 b

-- `while !is_char_boundary(end) { end -= 1 }`
unfoldable pub boundary_down : Bytes → ℕ → ℕ
boundary_down s zero = 0
boundary_down s (suc n) =
    let rest = boundary_down s n in if is_char_boundary s (suc n) then suc n else rest

unfoldable pub truncate_name : Bytes → Bytes
truncate_name name =
    if ltb max_thread_name_len (length name)
    then take (boundary_down name max_thread_name_len) name
    else name

-- The address and the name of the producer, on the ring.
unfoldable pub set_thread_info : ℕ → Bytes → Ring → Ring
set_thread_info id name r = record r { thread_id = id; thread_name = name }

abbrev pub set_serial : ℕ → Ring → Ring
set_serial n r = record r { serial = n }

-- A ring that is registered already keeps its place.
unfoldable pub register_ring : Shared → ℕ → Shared
register_ring w a =
    let w' =
      update (record w { next_serial = wrapping_add w.next_serial 1 }) a
        (set_serial w.next_serial) in
    if has w.registry a then w' else record w' { registry = w.registry ++ a ∷ [] }

-- A thread's buffer; the ring and the helper by address.
pub record ThreadBuf : Type 0 where
  pub ring : ℕ
  pub helper : Option ℕ
  pub thread_id : ℕ
  pub thread_name : Bytes

-- The first ring: from the pool, or of its own with the configured capacity.
unfoldable pub own_ring : Shared → ℕ → Option (ℕ × Shared)
own_ring w capacity = if w.installed then initial_ring w else placed w (with_capacity capacity)

-- The lazy start of `with_thread_buf`.
unfoldable pub start_thread : Shared → ℕ → ℕ → Bytes → Option (ThreadBuf × Shared)
start_thread w capacity id name = do
  (a, w') ← own_ring w capacity
  let tb : ThreadBuf = record {
    ring = a;
    helper = none;
    thread_id = id;
    thread_name = truncate_name name;
  }
  some (tb, register_ring (update w' a (set_thread_info id tb.thread_name)) a)

-- The `Drop` of a thread's buffer.
unfoldable pub end_thread : Shared → ThreadBuf → Shared
end_thread w tb = update (without_helper tb.helper) tb.ring (λ r. record r { live = false })
  where
    without_helper : Option ℕ → Shared
    without_helper none = w
    without_helper (some a) = update w a (λ r. record r { helper_reserved = false; live = false })

-- `None` of the source is `given_up`. `unfinished` is a call that has not returned, or a panic.
pub data Obtained : Type 0 where
  obtained : Reservation → ThreadBuf → Shared → Obtained
  given_up : ThreadBuf → Shared → Obtained
  unfinished : Obtained

abbrev pub in_ring : Shared → ThreadBuf → Reserved → Obtained
in_ring w tb (reserved slot r) = obtained slot tb (record w { store = set w.store tb.ring r })
in_ring w tb (refused r) = given_up tb (record w { store = set w.store tb.ring r })
in_ring w tb spinning = unfinished

-- What the producer sees of the drain on its ring now.
abbrev pub now : Shared → ℕ → List Seen
now w a = record { tail = (w.store a).tail; live = (w.store a).live } ∷ []

-- The switch to a claimed segment.
unfoldable pub switch_to : Shared → ThreadBuf → ℕ → ThreadBuf × Shared
switch_to w tb a = (
  record tb { ring = a; helper = none },
  register_ring (update w a (set_thread_info tb.thread_id tb.thread_name)) a,
)

abbrev of_alloc : Option (ℕ × Shared) → Taken
of_alloc none = stuck
of_alloc (some (a, w)) = taken a w

abbrev onward : ThreadBuf → (Shared → ThreadBuf → Obtained) → Taken → Obtained
onward tb rest (taken a w) = let (tb', w') = switch_to w tb a in rest w' tb'
onward tb rest (torn_down w) = given_up (record tb { helper = none }) w
onward tb rest blocked = unfinished
onward tb rest stuck = unfinished

abbrev slot_or : Shared → ThreadBuf → (Shared → Obtained) → Reserved → Obtained
slot_or w tb full (reserved slot r) = in_ring w tb (reserved slot r)
slot_or w tb full (refused r) = full (record w { store = set w.store tb.ring r })
slot_or w tb full spinning = unfinished

-- Of a wait that is not in the list, nothing happens and nothing returns.
abbrev first : List Between → Between
first [] = undisturbed []
first (wakes ∷ more) = wakes

abbrev pub others : List Between → List Between
others [] = []
others (wakes ∷ more) = more

module _ (payload : Bytes → Bytes) where
  abbrev reserve_helper : Shared → ThreadBuf → Between → Taken
  reserve_helper w tb wakes =
      first_ring payload (update w tb.ring (λ r. record r { helper_reserved = true }))
        (some tb.ring) (some tb.ring) wakes

  abbrev of_spare : Shared → ThreadBuf → Between → Option (ℕ × Shared) → Taken
  of_spare w tb wakes none = reserve_helper w tb wakes
  of_spare w tb wakes (some (a, w')) = taken a w'

  -- The segment that follows the full one, which is marked as handed off.
  unfoldable pub next_segment : Shared → ThreadBuf → Backpressure → Between → Taken
  next_segment w tb policy wakes =
      let w' = update w tb.ring (λ r. record r { handed_off = true }) in
      elim policy [
        | Backpressure.nano_log ↦ of_spare w' tb wakes (try_take_spare w')
        | _ ↦ of_alloc (alloc_fresh w')
      ]

  -- The loop, on fuel. The second and later turns find what happens in their waits in the rest of `wakes`.
  unfoldable pub handoff_loop : ℕ → Shared → ThreadBuf → ℕ → Backpressure → List Between → Obtained
  handoff_loop zero w tb total policy wakes = unfinished
  handoff_loop (suc fuel) w tb total policy wakes =
      slot_or w tb
        (λ w'.
          onward tb (λ w'' tb'. handoff_loop fuel w'' tb' total policy (others wakes))
            (next_segment w' tb policy (first wakes)))
        (reserve (w.store tb.ring) total policy (now w tb.ring))

  unfoldable pub reserve_with_policy :
      ℕ → Shared → ThreadBuf → ℕ → Backpressure → List Seen → List Between → Obtained
  reserve_with_policy fuel w tb total policy seen wakes =
      let alone = in_ring w tb (reserve (w.store tb.ring) total policy seen) in
      let segmented = if w.installed then handoff_loop fuel w tb total policy wakes else alone in
      elim policy [ Backpressure.nano_log ↦ segmented | Backpressure.quill ↦ segmented | _ ↦ alone ]
