-- ===== src/Tests/Segments.antt =====
-- src/segments.rs and src/thread_buf.rs on one segment that holds a record.
use ticklog.Base.{
  ℕ, ◌≡◌, ◌≢◌, ◌⊎◌, ◌||◌, refl, arith, true, none, some, [], ◌∷◌, ◌++◌, map, has, ◌==◌, length,
  replicate, Bytes, ascii,
}
use ticklog.Drain.{deliver}
use ticklog.Policy.{Backpressure}
use ticklog.Ring.{Reservation, from_storage, align_up, is_power_of_two}
use ticklog.Level.{info}
use ticklog.Segments.{
  Between, undisturbed, taken, take_pooled, format_helper_segment, pool_size_for,
}
use ticklog.Segments.Helper.{IsFresh, given_back, take_pooled-helper_lem}
use ticklog.Shared.{Shared}
use ticklog.Tests.Drain.{one, one-Holds}
use ticklog.Tests.Ring.{small}
use ticklog.ThreadBuf.{
  ThreadBuf, obtained, reserve_with_policy, register_ring, truncate_name, is_char_boundary,
  max_thread_name_len,
}
use ticklog.ThreadBuf.Quill.{reserve_with_policy-quill}
use ticklog.ThreadBuf.Registry.{IsRegistry, register_ring-IsRegistry}

-- Every ring made so far holds one record; the first is registered.
abbrev pub world : Shared
world = record {
  store = λ _. one;
  used = 3;
  registry = 0 ∷ [];
  next_serial = 1;
  installed = true;
  policy = Backpressure.nano_log;
  ring_capacity = 256;
  spares = [];
  lines = [];
}

pool_of_large_rings : pool_size_for 1048576 ≡ 8
unfolding pool_size_for
pool_of_large_rings = refl

pool_of_huge_rings : pool_size_for 16777216 ≡ 1
unfolding pool_size_for
pool_of_huge_rings = refl

-- Another producer claims the segment that was given back, and the drain recycles the segment 1.
abbrev contended : Between
contended = record (undisturbed []) {
  before_push = λ w. record w { lines = (9 ∷ [], info) ∷ w.lines };
  before_look = λ w. record w { spares = 1 ∷ [] };
}

abbrev after_help : Shared
after_help = given_back world 0 (map (deliver (λ b. b)) (small ∷ [])) contended

take_pooled-helper_lem_example :
    (format_helper_segment (λ b. b) world 0 contended ≡ some after_help)
    × IsFresh (after_help.store 0)
    × ((w' : Shared) × (take_pooled (λ b. b) world (some 0) (some 0) contended ≡ taken 1 w')
        × IsFresh (w'.store 1)
        × (w'.spares ≡ [])
        × (w'.lines ≡ (9 ∷ [], info) ∷ deliver (λ b. b) small ∷ [])
        × (w'.registry ≡ 0 ∷ [])
        × ((c : ℕ) → c ≢ 1 → w'.store c ≡ after_help.store c))
unfolding from_storage
take_pooled-helper_lem_example =
    take_pooled-helper_lem (λ b. b) world 0 (small ∷ []) (some 0) contended 1 [] (small ∷ [])
      one-Holds (omega arith) refl (λ w. refl) (λ w. refl) (λ w. refl) refl one-Holds

world-IsRegistry : IsRegistry world
unfolding from_storage
world-IsRegistry = record { once = refl; old = λ b m. omega arith }

register_ring-IsRegistry_example :
    let w' = register_ring world 1 in
    IsRegistry w'
    × ((b : ℕ) → has w'.registry b ≡ (has (0 ∷ []) b || 1 == b))
    × ((w'.store 1).serial ≡ 1)
    × ((b : ℕ) → has (0 ∷ []) b ≡ true → one.serial ≢ (w'.store 1).serial)
    × ((b : ℕ) → b ≢ 1 → w'.store b ≡ one)
register_ring-IsRegistry_example = register_ring-IsRegistry world 1 world-IsRegistry (omega arith)

-- three bytes of a character across the limit
abbrev long_name : Bytes
long_name = replicate 255 97 ++ 226 ∷ 130 ∷ 172 ∷ []

cut_before_the_character : length (truncate_name long_name) ≡ 255
unfolding truncate_name ticklog.ThreadBuf.boundary_down is_char_boundary
cut_before_the_character = refl

abbrev buffer : ThreadBuf
buffer = record { ring = 0; helper = none; thread_id = 7; thread_name = ascii "main" }

reserve_with_policy-quill_example :
    (slot : Reservation) × (tb' : ThreadBuf) × (w' : Shared) × (reserve_with_policy
        (λ b. b)
        2
        world
        buffer
        100
        Backpressure.quill
        []
        []
      ≡ obtained slot tb' w')
    × ((tb' ≡ buffer)
        ⊎ ((tb'.ring ≡ 3) × (has w'.registry 3 ≡ true) × ((w'.store 0).handed_off ≡ true)))
unfolding from_storage is_power_of_two align_up
reserve_with_policy-quill_example =
    reserve_with_policy-quill (λ b. b) 0 world buffer (small ∷ []) 100 [] [] refl refl (omega arith)
      (omega arith) (omega arith) one-Holds (omega arith) (λ e. omega arith)
