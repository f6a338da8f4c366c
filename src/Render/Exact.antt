-- ===== src/Render/Exact.antt =====
-- The rendering of a record's message, argument by argument.
use ticklog.Base.{
  ℕ, zero, suc, ◌+◌, ◌≡◌, refl, sym, ap, ◌∙◌, arith, Byte, Bytes, true, some, List, [], ◌∷◌, ◌++◌,
  map, length, get_elem?, drop, ◌==◌, ==_iff, Bool-cases, inl, inr, append_assoc,
}
use mathlib.Core.Path.{subst}
use ticklog.Cursor.{Cursor}
use ticklog.Encode.{Arg, type_tag, encode}
use ticklog.Encode.Layout.{payloads}
use ticklog.Format.{ok}
use ticklog.Format.Chars.{open_brace, close_brace}
use ticklog.Format.Check.{
  validate_loop, validate_fmt, starts_with, tail_of, skip_placeholder, resume,
}
use ticklog.Format.Check.Closing.{split_close}
use ticklog.Format.Parse.{parse_spec}
use ticklog.Render.{
  Std, Walk, Rendered, rendered, format_arg, place_arg, of_tag, of_arg, go_on, interleave_loop,
  interleave,
}
use ticklog.Render.Checked.{
  Accepts, accepted, count_of, passed_on, validate_loop-grows, starts_with-shape, get_elem?-drop,
  drop-next,
}
use ticklog.Render.Message.{
  AllFit, shown, Shows, finished, doubled_open, doubled_close, plain, placed, format_arg-shown,
}

module _ (std : Std) (tags : Bytes) where
  abbrev at : ℕ → Cursor → Bytes → Walk
  at n c buf = record { arg_idx = n; parse_ok = true; cursor = c; buf = buf }

  place_arg-shown :
      (body buf rest : Bytes) (n : ℕ) (a : Arg) (args : List Arg)
      → AllFit (a ∷ args)
      → get_elem? tags n ≡ some (type_tag a)
      → place_arg std tags body (at n (payloads (a ∷ args) ++ rest) buf)
        ≡ some (at (suc n) (payloads args ++ rest) (shown std (parse_spec body) a buf))
  unfolding place_arg
  place_arg-shown body buf rest n a args fits here =
      let w = at n (payloads (a ∷ args) ++ rest) buf in
      ap (of_tag std (parse_spec body) w) here
      ∙ ap (of_arg std (type_tag a) w) (
          ap (λ c. format_arg std (type_tag a) (parse_spec body) c buf)
            (append_assoc (encode a) (payloads args) rest)
          ∙ format_arg-shown std (parse_spec body) a (payloads args ++ rest) buf fits.0)

  -- The render of the string has ended, with its message behind `buf` and the cursor behind the arguments.
  abbrev Written : Bytes → ℕ → List Arg → Cursor → Bytes → Rendered → Type 0
  Written s m args rest buf r =
      (out : Bytes) × Shows std s args buf out × (r ≡ rendered (at m rest out))

  two_braces :
      (b c : Byte) (s : Bytes)
      → (c == b) ≡ true
      → starts_with b s ≡ true
      → c ∷ s ≡ b ∷ b ∷ tail_of s
  two_braces b c s e f =
      ap (λ x. x ∷ s) ((==_iff c b).0 e) ∙ ap (λ t. b ∷ t) (starts_with-shape b s f)

  placed-Written :
      (fuel : ℕ) (c : Byte) (s : Bytes) (n m : ℕ) (args : List Arg) (rest : Cursor) (buf : Bytes)
      → n + length args ≡ m
      → AllFit args
      → drop n tags ≡ map type_tag args
      → Accepts m (resume (skip_placeholder s) (λ t. validate_loop fuel t (suc n)))
      → (c == open_brace) ≡ true
      → ((args' : List Arg) (buf' : Bytes)
          → suc n + length args' ≡ m
          → AllFit args'
          → drop (suc n) tags ≡ map type_tag args'
          → Accepts m (validate_loop fuel (split_close s).1 (suc n))
          → Written (split_close s).1 m args' rest buf' (
              interleave_loop std fuel tags
                (split_close s).1
                (at (suc n) (payloads args' ++ rest) buf')))
      → Written (c ∷ s) m args rest buf (
          go_on
            (interleave_loop std fuel tags (split_close s).1)
            (place_arg std tags (split_close s).0 (at n (payloads args ++ rest) buf)))
  placed-Written fuel c s n m [] rest buf sum fits left v e next = absurd (
      omega (
        arith,
        sum,
        validate_loop-grows fuel (split_close s).1 (suc n) m (passed_on fuel (suc n) m s v).1,
      ))
  placed-Written fuel c s n m (a ∷ args) rest buf sum fits left v e next =
      let ((shape, unclosed), v') = passed_on fuel (suc n) m s v in
      let body = (split_close s).0 in
      let here = get_elem?-drop n tags (map type_tag args) (type_tag a) left in
      let (out, sh, eq) =
        next args (shown std (parse_spec body) a buf) (omega (arith, sum)) fits.1
          (drop-next n tags (map type_tag args) (type_tag a) left) v' in
      (
        out,
        subst (λ t. Shows std t (a ∷ args) buf out)
            (sym (ap (λ x. x ∷ s) ((==_iff c open_brace).0 e) ∙ ap (λ t. open_brace ∷ t) shape))
            (placed body (split_close s).1 unclosed sh),
        ap (go_on (interleave_loop std fuel tags (split_close s).1))
              (place_arg-shown body buf rest n a args fits here)
            ∙ eq,
      )

  loop-Written :
      (fuel : ℕ) (s : Bytes) (n m : ℕ) (args : List Arg) (rest : Cursor) (buf : Bytes)
      → n + length args ≡ m
      → AllFit args
      → drop n tags ≡ map type_tag args
      → Accepts m (validate_loop fuel s n)
      → Written s m args rest buf
          (interleave_loop std fuel tags s (at n (payloads args ++ rest) buf))
  unfolding interleave_loop validate_loop
  loop-Written zero s n m args rest buf sum fits left v = absurd (ground (arith, ap accepted v))
  loop-Written (suc fuel) [] n m [] rest buf sum fits left v =
      (buf, finished, ap (λ k. rendered (at k rest buf)) (ap count_of v))
  loop-Written (suc fuel) [] n m (a ∷ args) rest buf sum fits left v =
      absurd (omega (arith, sum, ap count_of v))
  loop-Written (suc fuel) (c ∷ s) n m args rest buf sum fits left v =
      elim (Bool-cases (c == open_brace)) [
        | inl e ↦ elim (Bool-cases (starts_with open_brace s)) [
          | inl f ↦
              let (out, sh, eq) =
                loop-Written fuel (tail_of s) n m args rest (buf ++ open_brace ∷ []) sum fits left
                  (rw (e, f) at v) in
              (
                out,
                subst (λ t. Shows std t args buf out) (sym (two_braces open_brace c s e f))
                    (doubled_open sh),
                rw (e, f) eq,
              )
          | inr f ↦
              rw (e, f)
                (placed-Written fuel c s n m args rest buf sum fits left (rw (e, f) at v) e
                  (λ args' buf'. loop-Written fuel (split_close s).1 (suc n) m args' rest buf'))
        ]
        | inr e ↦ elim (Bool-cases (c == close_brace)) [
          | inl f ↦ elim (Bool-cases (starts_with close_brace s)) [
            | inl g ↦
                let (out, sh, eq) =
                  loop-Written fuel (tail_of s) n m args rest (buf ++ close_brace ∷ []) sum fits
                    left (rw (e, f, g) at v) in
                (
                  out,
                  subst (λ t. Shows std t args buf out) (sym (two_braces close_brace c s f g))
                      (doubled_close sh),
                  rw (e, f) eq,
                )
            | inr g ↦ absurd (ground (arith, ap accepted (rw (e, f, g) at v)))
          ]
          | inr f ↦
              let (out, sh, eq) =
                loop-Written fuel s n m args rest (buf ++ c ∷ []) sum fits left (rw (e, f) at v) in
              (
                out,
                plain (λ h. ground (arith, (==_iff c open_brace).1 h))
                    (λ h. ground (arith, (==_iff c close_brace).1 h)) sh,
                rw (e, f) eq,
              )
        ]
      ]

-- On a format string that the compile-time checker accepts with as many placeholders as the record
-- has arguments, each of which is a value of its type and each string shorter than 2^16 bytes,
-- whatever the standard library prints: rendering the message from the tags and the payloads that
-- the producer laid out ends without a panic. Behind what the buffer held stands the format string
-- with its doubled braces made single and, in the place of each placeholder, the value of the next
-- argument by the spec; all arguments are used up, and the cursor stops behind their payloads.
pub interleave-Shows :
    (std : Std) (fmt : Bytes) (args : List Arg) (rest : Cursor) (buf : Bytes)
    → validate_fmt fmt ≡ some (ok (length args))
    → AllFit args
    → (out : Bytes) × Shows std fmt args buf out
      × (interleave std fmt (map type_tag args) (payloads args ++ rest) buf
          ≡ rendered (record { arg_idx = length args; parse_ok = true; cursor = rest; buf = out }))
unfolding interleave validate_fmt
interleave-Shows std fmt args rest buf v fits =
    loop-Written std (map type_tag args) (suc (length fmt)) fmt 0 (length args) args rest buf
      (omega arith) fits refl v
