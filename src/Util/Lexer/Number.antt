-- ===== src/Util/Lexer/Number.antt =====
-- `Number` of util/lexer.go. What package unicode and package strconv give are arguments.
use sp0rkle.Prelude.{
  ℕ, ◌<◌, ◌≡◌, refl, ap, ◌∙◌, inl, inr, Bool, true, false, ◌||◌, Option, none, some, Bytes, codes,
  bytes_eq, length, arith, ◌==◌, leb, if◌then◌else◌, Bool-cases,
}
use sp0rkle.Util.Lexer.{Lexer, peek, advance, next, scan, rewind, slice}
use sp0rkle.Util.Lexer.Scanning.{IsInside, peek-Peeked, peek-eq}
use sp0rkle.Util.Lexer.Moving.{
  Moves, Moves-trans, Moves-weaken, peek_end, peek-Moves, advance-Moves, next-Moves,
  rewind-next-Moves, scan-Moves, scan-Moves_rune,
}

-- `l.pos += l.width` if the rune ahead passes, after a look at it.
unfoldable pub skip_if : (ℕ → Bool) → Lexer → Lexer
skip_if f l = let (r, l') = peek l in if f r then advance l' else l'

module _ (is_digit : ℕ → Bool) where
  -- The fraction: what follows a point, if there is one.
  unfoldable pub fraction : Lexer → Lexer
  fraction l =
      let (c, l') = next l in if bytes_eq c (codes ".") then (scan is_digit l').1 else rewind l'

  unfoldable pub exponent : Lexer → Lexer
  exponent l =
      let (c, l') = next l in
      if bytes_eq c (codes "e") || bytes_eq c (codes "E")
      then (scan is_digit (skip_if (λ r. r == b'-' || r == b'+') l')).1
      else rewind l'

  -- The lexer after the number, before `l.start = s`.
  unfoldable pub number_end : Lexer → Lexer
  number_end l = exponent (fraction (scan is_digit (skip_if (λ r. r == b'-') l)).1)

  -- The value, 0 where `ParseFloat` fails, and the lexer.
  unfoldable pub number : {N : Type 0} → (Bytes → Option N) → N → Lexer → N × Lexer
  number parse_float zero l =
      let l' = record (number_end l) { start = l.pos } in
      (elim (parse_float (slice l'.input l.pos l'.pos)) [ none ↦ zero | some n ↦ n ], l')

  skip_if-Moves : (f : ℕ → Bool) (l : Lexer) → f 0 ≡ false → IsInside l → Moves 0 l (skip_if f l)
  unfolding skip_if
  skip_if-Moves f l z i = elim (Bool-cases (f (peek l).0)) [
    | inr e ↦ rw e (peek-Moves l i)
    | inl e ↦ rw e (elim (Bool-cases (leb (length l.input) l.pos)) [
      | inl end ↦ absurd (ground (arith, ap f (peek_end l (ground arith))))
      | inr within ↦ Moves-weaken 1 0 l _ (omega arith) (advance-Moves l i (ground arith))
    ])
  ]

  fraction-Moves : (l : Lexer) → IsInside l → Moves 0 l (fraction l)
  unfolding fraction
  fraction-Moves l i = elim (Bool-cases (bytes_eq (next l).0 (codes "."))) [
    | inl e ↦
        let a = next-Moves l i in
        rw e (Moves-trans 0 0 l _ _ a (scan-Moves is_digit (next l).1 a.is_inside))
    | inr e ↦ rw e (rewind-next-Moves l i)
  ]

  exponent-Moves : (l : Lexer) → IsInside l → Moves 0 l (exponent l)
  unfolding exponent
  exponent-Moves l i =
      elim (Bool-cases (bytes_eq (next l).0 (codes "e") || bytes_eq (next l).0 (codes "E"))) [
        | inl e ↦
            let a = next-Moves l i in
            let b = skip_if-Moves (λ r. r == b'-' || r == b'+') (next l).1 refl a.is_inside in
            rw e (
              Moves-trans 0 0 l _ _ (Moves-trans 0 0 l _ _ a b) (scan-Moves is_digit _ b.is_inside))
        | inr e ↦ rw e (rewind-next-Moves l i)
      ]

  abbrev pub starts_number : ℕ → Bool
  starts_number r = r == b'-' || is_digit r

  start-Moves :
      (l : Lexer)
      → IsInside l
      → l.pos < length l.input
      → starts_number (peek l).0 ≡ true
      → Moves 1 l (scan is_digit (skip_if (λ r. r == b'-') l)).1
  unfolding skip_if
  start-Moves l i h e = elim (Bool-cases ((peek l).0 == b'-')) [
    | inl minus ↦
        let a = advance-Moves l i h in
        rw minus (Moves-trans 1 0 l _ _ a (scan-Moves is_digit (advance (peek l).1) a.is_inside))
    | inr other ↦
        let p = peek-Peeked l in
        let a = peek-Moves l i in
        let digit : is_digit (peek (peek l).1).0 ≡ true =
          ap is_digit (peek-eq l (peek l).1 p.same_input p.same_pos) ∙ ground arith in
        rw other (
          Moves-trans 0 1 l _ _ a (
            scan-Moves_rune is_digit (peek l).1 a.is_inside digit
              (omega (arith, p.same_pos, ap length p.same_input))))
  ]

  -- `Number` stays in the input, and at a digit or a minus it goes on.
  pub number-Moves :
      {N : Type 0} (parse_float : Bytes → Option N) (zero : N) (l : Lexer)
      → IsInside l
      → l.pos < length l.input
      → starts_number (peek l).0 ≡ true
      → Moves 1 l (number parse_float zero l).1
  unfolding number number_end
  number-Moves parse_float zero l i h e =
      let a = start-Moves l i h e in
      let b = fraction-Moves _ a.is_inside in
      let c = exponent-Moves _ b.is_inside in
      let d = Moves-trans 1 0 l _ _ a (Moves-trans 0 0 _ _ _ b c) in
      record {
        same_input = d.same_input;
        forward = d.forward;
        is_inside = record { inside = d.is_inside.inside; at_end = d.is_inside.at_end };
      }
