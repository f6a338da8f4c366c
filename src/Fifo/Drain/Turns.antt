-- ===== src/Fifo/Drain/Turns.antt =====
-- What one turn of the loop over the staged bytes makes of a record, and of a record that is cut off.
use ticklog.Base.{
  ℕ, suc, zero, ◌<◌, ◌≤◌, ◌≡◌, refl, sym, ap, ◌∙◌, arith, Bytes, true, false, [], ◌∷◌, ◌++◌, length,
  get_or, take, drop, lt→ltb, le→ltb, ltb, some,
}
use ticklog.Drain.{deliver}
use ticklog.Fifo.Drain.{Pass, stop, again, size_of, turn, after, staging_loop}
use ticklog.Ring.{version, log_record, header_size}
use ticklog.Ring.Frames.{IsWire}
use ticklog.Words.{to_le_bytes}

-- The first bytes announce a record of `n` bytes.
pub record Announces (s : Bytes) (n : ℕ) : Type 0 where
  pub version_at : get_or s 0 0 ≡ version
  pub type_at : get_or s 1 0 ≡ log_record
  pub size_at : size_of s ≡ n

get_or-append : (s t : Bytes) (i : ℕ) → i < length s → get_or (s ++ t) i 0 ≡ get_or s i 0
get_or-append [] t i h = absurd (omega arith)
get_or-append (b ∷ s) t zero h = refl
get_or-append (b ∷ s) t (suc i) h = get_or-append s t i (omega arith)

size_of-append : (s t : Bytes) → 4 ≤ length s → size_of (s ++ t) ≡ size_of s
size_of-append s t h =
    rw (get_or-append s t 2 (omega arith), get_or-append s t 3 (omega arith)) refl

pub append-Announces :
    {s : Bytes} {n : ℕ} (t : Bytes) → 4 ≤ length s → Announces s n → Announces (s ++ t) n
append-Announces {s} t h a = record {
  version_at = get_or-append s t 0 (omega arith) ∙ a.version_at;
  type_at = get_or-append s t 1 (omega arith) ∙ a.type_at;
  size_at = size_of-append s t h ∙ a.size_at;
}

pub cut-Announces :
    {s : Bytes} {n : ℕ} (t : Bytes) → 4 ≤ length s → Announces (s ++ t) n → Announces s n
cut-Announces {s} t h a = record {
  version_at = sym (get_or-append s t 0 (omega arith)) ∙ a.version_at;
  type_at = sym (get_or-append s t 1 (omega arith)) ∙ a.type_at;
  size_at = sym (size_of-append s t h) ∙ a.size_at;
}

two_bytes :
    (n : ℕ) (body : Bytes)
    → n < 65536
    → size_of (version ∷ log_record ∷ (to_le_bytes 2 n ++ body)) ≡ n
two_bytes n body h = omega arith

pub wire-Announces : {b : Bytes} → IsWire b → Announces b (length b)
wire-Announces {b} w = record {
  version_at = ap (λ s. get_or s 0 0) w.shape;
  type_at = ap (λ s. get_or s 1 0) w.shape;
  size_at = ap size_of w.shape ∙ two_bytes (length b) w.body (omega (arith, w.short));
}

module _ (payload : Bytes → Bytes) (fuel : ℕ) (p : Pass) where
  pub loop_stop :
      ltb (length p.rest) header_size ≡ true → staging_loop payload (suc fuel) p ≡ some p
  unfolding staging_loop
  loop_stop e = rw (e, staging_loop) refl

  pub loop_step :
      ltb (length p.rest) header_size ≡ false
      → staging_loop payload (suc fuel) p ≡ after (turn payload p) (staging_loop payload fuel)
  unfolding staging_loop turn
  loop_step e = rw (e, staging_loop) refl

module _ (payload : Bytes → Bytes) (p : Pass) (n : ℕ) (a : Announces p.rest n)
    (long : header_size ≤ n) where
  -- A whole record is delivered.
  pub turn_whole :
      n ≤ length p.rest
      → turn payload p
        ≡ again (record {
          rest = drop n p.rest;
          had_work = true;
          out = p.out ++ deliver payload (take n p.rest) ∷ [];
        })
  unfolding turn
  turn_whole h =
      rw (a.version_at, a.type_at, a.size_at, le→ltb n header_size long, le→ltb _ _ h) refl

  -- A record that is cut off waits.
  pub turn_cut : length p.rest < n → turn payload p ≡ stop p
  unfolding turn
  turn_cut h = rw (a.version_at, a.type_at, a.size_at, le→ltb n header_size long, lt→ltb _ _ h) refl
