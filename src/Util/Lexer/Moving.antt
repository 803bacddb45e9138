-- ===== src/Util/Lexer/Moving.antt =====
-- The methods of util/lexer.go stay in the input and do not go back, and what of them goes on.
use sp0rkle.Prelude.{
  ℕ, ◌+◌, ◌≤◌, ◌<◌, ◌≡◌, refl, ap, ◌∙◌, inl, inr, Bool, true, length, arith, leb, Bool-cases,
}
use sp0rkle.Util.Lexer.{Lexer, peek, advance, next, scan, rewind}
use sp0rkle.Util.Lexer.Scanning.{
  IsInside, peek-Peeked, peek-IsInside, advance-IsInside, peek-eq, scan-Scanned,
}

-- From `l` the lexer has come to `m`, at least `n` bytes on and still in the input.
pub record Moves (n : ℕ) (l m : Lexer) : Type 0 where
  pub same_input : m.input ≡ l.input
  pub forward : n + l.pos ≤ m.pos
  pub is_inside : IsInside m

pub Moves-refl : (l : Lexer) → IsInside l → Moves 0 l l
Moves-refl l i = record { same_input = refl; forward = omega arith; is_inside = i }

pub Moves-trans : (n k : ℕ) (l m o : Lexer) → Moves n l m → Moves k m o → Moves (n + k) l o
Moves-trans n k l m o a b = record {
  same_input = b.same_input ∙ a.same_input;
  forward = omega (arith, a.forward, b.forward);
  is_inside = b.is_inside;
}

pub Moves-weaken : (n k : ℕ) (l m : Lexer) → k ≤ n → Moves n l m → Moves k l m
Moves-weaken n k l m h a = record {
  same_input = a.same_input;
  forward = omega (arith, a.forward);
  is_inside = a.is_inside;
}

-- A look at the end gives 0.
pub peek_end : (l : Lexer) → length l.input ≤ l.pos → (peek l).0 ≡ 0
unfolding peek
peek_end l h = ground arith

pub peek-Moves : (l : Lexer) → IsInside l → Moves 0 l (peek l).1
peek-Moves l i =
    let p = peek-Peeked l in
    record {
      same_input = p.same_input;
      forward = omega (arith, p.same_pos);
      is_inside = peek-IsInside l i;
    }

pub advance-Moves :
    (l : Lexer) → IsInside l → l.pos < length l.input → Moves 1 l (advance (peek l).1)
advance-Moves l i h =
    let p = peek-Peeked l in
    record {
      same_input = p.same_input;
      forward = ground (arith, p.same_pos, p.ahead);
      is_inside = advance-IsInside l i h;
    }

-- At the end a step goes nowhere.
advance-Moves_end :
    (l : Lexer) → IsInside l → length l.input ≤ l.pos → Moves 0 l (advance (peek l).1)
advance-Moves_end l i h =
    let p = peek-Peeked l in
    let stays : (peek l).1.pos + (peek l).1.width ≡ l.pos = ground (arith, p.same_pos, p.ahead) in
    record {
      same_input = p.same_input;
      forward = omega (arith, stays);
      is_inside = record {
        inside = omega (arith, stays, i.inside, ap length p.same_input);
        at_end = λ _. omega (arith, stays, h, ap length p.same_input);
      };
    }

marked-IsInside : (l : Lexer) → IsInside l → IsInside (record l { start = l.pos })
marked-IsInside l i = record { inside = i.inside; at_end = i.at_end }

-- The mark of the start plays no part.
Moves-marked : (n : ℕ) (l m : Lexer) → Moves n (record l { start = l.pos }) m → Moves n l m
Moves-marked n l m a = record {
  same_input = a.same_input;
  forward = a.forward;
  is_inside = a.is_inside;
}

-- `Next` on a rune goes on, and at the end it stays; `Rewind` after it goes back to where it was.
pub next-Moves : (l : Lexer) → IsInside l → Moves 0 l (next l).1
unfolding next
next-Moves l i = elim (Bool-cases (leb (length l.input) l.pos)) [
  | inl end ↦
      Moves-marked 0 l _
        (advance-Moves_end (record l { start = l.pos }) (marked-IsInside l i) (ground arith))
  | inr within ↦ Moves-weaken 1 0 l _ (omega arith) (
      Moves-marked 1 l _
        (advance-Moves (record l { start = l.pos }) (marked-IsInside l i) (ground arith)))
]

pub next-Moves_rune : (l : Lexer) → IsInside l → l.pos < length l.input → Moves 1 l (next l).1
unfolding next
next-Moves_rune l i h =
    Moves-marked 1 l _ (advance-Moves (record l { start = l.pos }) (marked-IsInside l i) h)

-- `Rewind` goes back to where the last `Next` or `Scan` began.
pub rewind-Moves :
    (l m : Lexer) → IsInside l → m.input ≡ l.input → m.start ≡ l.pos → Moves 0 l (rewind m)
unfolding rewind
rewind-Moves l m i e h = record {
  same_input = e;
  forward = omega (arith, h);
  is_inside = record {
    inside = omega (arith, h, i.inside, ap length e);
    at_end = λ end. absurd (ground arith);
  };
}

pub next_start : (l : Lexer) → ((next l).1.input ≡ l.input) × ((next l).1.start ≡ l.pos)
unfolding next
next_start l = let p = peek-Peeked (record l { start = l.pos }) in (p.same_input, p.same_start)

pub rewind-next-Moves : (l : Lexer) → IsInside l → Moves 0 l (rewind (next l).1)
rewind-next-Moves l i = rewind-Moves l (next l).1 i (next_start l).0 (next_start l).1

pub scan-Moves : (f : ℕ → Bool) (l : Lexer) → IsInside l → Moves 0 l (scan f l).1
scan-Moves f l i =
    let s = (scan-Scanned f l i).0 in
    record { same_input = s.same_input; forward = omega (arith, s.forward); is_inside = s.inside }

-- `Scan` goes on if the rune ahead passes.
pub scan-Moves_rune :
    (f : ℕ → Bool) (l : Lexer)
    → IsInside l
    → f (peek l).0 ≡ true
    → l.pos < length l.input
    → Moves 1 l (scan f l).1
scan-Moves_rune f l i e h =
    let s = (scan-Scanned f l i).0 in
    let m = (scan f l).1 in
    record {
      same_input = s.same_input;
      forward = elim (Bool-cases (leb m.pos l.pos)) [
        | inl stays ↦
            let here : m.pos ≡ l.pos = ground (arith, s.forward) in
            let same = peek-eq l m s.same_input here in
            absurd (ground (arith, s.stops, ap f same, ap length s.same_input, here))
        | inr goes ↦ ground arith
      ];
      is_inside = s.inside;
    }
