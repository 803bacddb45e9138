-- ===== src/Drivers/Karma/Things.antt =====
-- The loop of karmaThings of drivers/karmadriver/karmadriver.go ends, and what it collects.
use sp0rkle.Prelude.{
  ℕ, zero, suc, ◌+◌, ◌<◌, ◌≡◌, refl, ap, ◌∙◌, Bool, true, false, not, ◌&&◌, Option, none, some,
  List, [], ◌∷◌, Bytes, codes, length, arith, All, All-append, if_both, ◌==◌, bytes_eq,
}
use sp0rkle.Util.Text.{is_space}
use sp0rkle.Util.Lexer.{Lexer, lexer, peek, at_eof, next, scan, find}
use sp0rkle.Util.Lexer.Scanning.{IsInside, peek-Peeked, peek-eq, scan-Scanned}
use sp0rkle.Util.Lexer.Moving.{
  Moves, Moves-trans, peek-Moves, next-Moves, next-Moves_rune, scan-Moves, scan-Moves_rune,
}
use sp0rkle.Drivers.Karma.{
  Thing, reverse, last_rune, is_plus_minus, not_plus_minus, add, read_thing, things_loop,
  karma_things,
}

abbrev pub IsNamed : Thing → Type 0
IsNamed t = 0 < length t.thing

-- A result, of things that have a name.
abbrev Named : Option (List Thing) → Type 0
Named none = ⊥
Named (some ts) = All IsNamed ts

add-IsNamed :
    (t : Bytes) (p : Bool) (ret : List Thing) → All IsNamed ret → All IsNamed (add t p ret)
add-IsNamed t p ret a =
    if_both (All IsNamed) (length t == 0) _ _ (λ _. a)
      (λ e. All-append IsNamed ret (record { thing = t; plus = p } ∷ []) a (ground arith, tt))

find-Moves : (r : ℕ) (l : Lexer) → IsInside l → Moves 0 l (find r l).1
unfolding find
find-Moves r l i = scan-Moves _ l i

at_eof-Moves : (l : Lexer) → IsInside l → Moves 0 l (at_eof l).1
unfolding at_eof
at_eof-Moves l i = peek-Moves l i

-- Where the lexer is not at the end there is a rune ahead, the one that it saw before it asked.
not_at_eof :
    (l : Lexer)
    → IsInside l
    → (at_eof l).0 ≡ false
    → ((at_eof l).1.pos < length (at_eof l).1.input)
      × ((peek (at_eof l).1).0 ≡ (peek l).0)
      × (l.pos < length l.input)
unfolding at_eof
not_at_eof l i e =
    let p = peek-Peeked l in
    let within : l.pos < length l.input = ground (arith, p.ahead) in
    (rw (p.same_pos, p.same_input) within, peek-eq l (peek l).1 p.same_input p.same_pos, within)

module _ (is_alphanumeric : ℕ → Bool) where
  read_thing-Moves : (l : Lexer) → IsInside l → Moves 0 l (read_thing is_alphanumeric l).1
  unfolding read_thing
  read_thing-Moves l i =
      let a = peek-Moves l i in
      if_both (λ (r : Bytes × Lexer × Bool). Moves 0 l r.1) ((peek l).0 == b')') _ _
        (λ _.
          let b = Moves-trans 0 0 l _ _ a (next-Moves _ a.is_inside) in
          let c = Moves-trans 0 0 l _ _ b (find-Moves b'(' _ b.is_inside) in
          Moves-trans 0 0 l _ _ c (at_eof-Moves _ c.is_inside))
        (λ _. Moves-trans 0 0 l _ _ a (scan-Moves is_alphanumeric _ a.is_inside))

  -- The runes that the scan of the signs takes: one at least, where there is one ahead.
  signs-Moves :
      (l : Lexer)
      → IsInside l
      → (at_eof (scan not_plus_minus l).1).0 ≡ false
      → Moves 1
          (at_eof (scan not_plus_minus l).1).1
          (scan is_plus_minus (at_eof (scan not_plus_minus l).1).1).1
  signs-Moves l i e =
      let l1 = (scan not_plus_minus l).1 in
      let a = scan-Moves not_plus_minus l i in
      let (h, same, within) = not_at_eof l1 a.is_inside e in
      let s = (scan-Scanned not_plus_minus l i).0 in
      let sign : is_plus_minus (peek l1).0 ≡ true = ground (arith, s.stops, within) in
      scan-Moves_rune is_plus_minus (at_eof l1).1 (at_eof-Moves l1 a.is_inside).is_inside
        (ap is_plus_minus same ∙ sign) h

  things_loop-Named :
      (fuel : ℕ) (l : Lexer) (ret : List Thing)
      → length l.input < fuel + l.pos
      → IsInside l
      → All IsNamed ret
      → Named (things_loop is_alphanumeric fuel l ret)
  unfolding things_loop
  things_loop-Named zero l ret enough i a = absurd (omega (arith, i.inside))
  things_loop-Named (suc fuel) l ret enough i a =
      let l1 = (scan not_plus_minus l).1 in
      let l2 = (at_eof l1).1 in
      let l3 = (scan is_plus_minus l2).1 in
      let m1 = scan-Moves not_plus_minus l i in
      let m2 = Moves-trans 0 0 l l1 l2 m1 (at_eof-Moves l1 m1.is_inside) in
      let on : (m : Lexer) (ret : List Thing)
          → Moves 1 l2 m
          → All IsNamed ret
          → Named (things_loop is_alphanumeric fuel m ret) =
        λ m ret' mv b.
          let mv' = Moves-trans 0 1 l l2 m m2 mv in
          things_loop-Named fuel m ret' (omega (arith, mv'.forward, ap length mv'.same_input))
            mv'.is_inside b in
      if_both Named (at_eof l1).0 _ _ (λ _. a)
        (λ going.
          let signs = signs-Moves l i going in
          let thing = read_thing-Moves l3 signs.is_inside in
          if_both Named
            (not (length (scan not_plus_minus l).0 == 0)
              && not (is_space (last_rune (scan not_plus_minus l).0)))
            _ _
            (λ _.
              on (next l2).1 ret
                (next-Moves_rune l2 m2.is_inside (not_at_eof l1 m1.is_inside going).0) a)
            (λ _.
              if_both Named
                (not (bytes_eq (scan is_plus_minus l2).0 (codes "++"))
                  && not (bytes_eq (scan is_plus_minus l2).0 (codes "--")))
                _ _ (λ _. on l3 ret signs a)
                (λ _.
                  if_both Named (read_thing is_alphanumeric l3).2 _ _ (λ _. a)
                    (λ _.
                      on (read_thing is_alphanumeric l3).1 _ (Moves-trans 1 0 l2 l3 _ signs thing)
                        (add-IsNamed _ _ ret a)))))

  -- karmaThings ends on every text, and all that it returns have a name that is not empty.
  pub karma_things-IsNamed :
      (s : Bytes) → (ts : List Thing) × (karma_things is_alphanumeric s ≡ some ts) × All IsNamed ts
  unfolding karma_things
  karma_things-IsNamed s = named _ (
      things_loop-Named (suc (length (reverse s))) (lexer (reverse s)) [] (omega arith)
        (record { inside = omega arith; at_end = λ e. absurd (cc e) }) tt)
    where
      named :
          (o : Option (List Thing)) → Named o → (ts : List Thing) × (o ≡ some ts) × All IsNamed ts
      named none h = absurd h
      named (some ts) h = (ts, refl, h)
