-- ===== src/Util/Lexer/Scanning.antt =====
-- `Scan` and `Not` of util/lexer.go find the longest run of runes that pass, or fail, a test.
use sp0rkle.Prelude.{
  ℕ, zero, suc, ◌+◌, ◌-◌, ◌≤◌, ◌<◌, ◌≡◌, refl, ap, ◌∙◌, sym, ◌⊎◌, inl, inr, ◌||◌, Bool, true, false,
  not, Bytes, length, drop, ◌++◌, [], ◌∷◌, leb, ◌==◌, arith, Bool-cases, take-append-drop,
  drop-drop, length-drop,
}
use sp0rkle.Util.Utf8.{decode_rune, decode_rune_width}
use sp0rkle.Util.Lexer.{Lexer, slice, peek, advance, scan_loop, scan, not_loop, scan_not, rewind}

-- The lexer stands in its input, and the mark of the end is set at the end only.
pub record IsInside (l : Lexer) : Type 0 where
  pub inside : l.pos ≤ length l.input
  pub at_end : l.eof ≡ true → length l.input ≤ l.pos

drop_width : (s : Bytes) → 0 < length s → (1 ≤ (decode_rune s).1) × ((decode_rune s).1 ≤ length s)
drop_width [] h = elim h [ ]
drop_width (b ∷ s) h = decode_rune_width b s

-- What is ahead: the end, or a rune of some width.
abbrev Ahead : Lexer → Lexer → Type 0
Ahead l m =
    ((length l.input ≤ l.pos) × (m.eof ≡ true) × (m.width ≡ 0))
    ⊎ ((l.pos < length l.input)
        × (m.eof ≡ l.eof)
        × (1 ≤ m.width)
        × (l.pos + m.width ≤ length l.input))

-- A look moves nothing; it leaves the width of the rune ahead, or the mark of the end.
pub record Peeked (l m : Lexer) : Type 0 where
  pub same_input : m.input ≡ l.input
  pub same_start : m.start ≡ l.start
  pub same_pos : m.pos ≡ l.pos
  pub ahead : Ahead l m

peek-Ahead : (l : Lexer) → Ahead l (peek l).1
unfolding peek
peek-Ahead l = elim (Bool-cases (leb (length l.input) l.pos)) [
  | inl end ↦ rw end (inl (ground arith, refl, refl))
  | inr within ↦
      let w = drop_width (drop l.pos l.input) (ground (arith, length-drop l.pos l.input)) in
      inr (
        ground arith,
        ground arith,
        ground (arith, w),
        ground (arith, w, length-drop l.pos l.input),
      )
]

pub peek-Peeked : (l : Lexer) → Peeked l (peek l).1
peek-Peeked l = record {
  same_input = unfold peek in ground arith;
  same_start = unfold peek in ground arith;
  same_pos = unfold peek in ground arith;
  ahead = peek-Ahead l;
}

-- The rune ahead depends on the input and the position alone.
pub peek-eq : (l m : Lexer) → m.input ≡ l.input → m.pos ≡ l.pos → (peek m).0 ≡ (peek l).0
unfolding peek
peek-eq l m p q = ground arith

-- The input holds runes that pass the test from one position up to another.
pub data Passes (f : ℕ → Bool) : Lexer → ℕ → Type 0 where
  done : {l : Lexer} {b : ℕ} → l.pos ≡ b → Passes f l b
  more :
      {l : Lexer} {b : ℕ}
      → f (peek l).0 ≡ true
      → l.pos < length l.input
      → Passes f (advance (peek l).1) b
      → Passes f l b

-- From `l` to `m` there are only runes that pass, and `m` is at the end or at one that does not.
pub record Scanned (f : ℕ → Bool) (l m : Lexer) : Type 0 where
  pub same_input : m.input ≡ l.input
  pub same_start : m.start ≡ l.start
  pub forward : l.pos ≤ m.pos
  pub inside : IsInside m
  pub passes : Passes f l m.pos
  pub stops : (f (peek m).0 ≡ false) ⊎ (length m.input ≤ m.pos)

pub peek-IsInside : (l : Lexer) → IsInside l → IsInside (peek l).1
peek-IsInside l i =
    let p = peek-Peeked l in
    record {
      inside = rw (p.same_input, p.same_pos) i.inside;
      at_end = λ e. rw (p.same_input, p.same_pos) (ground (arith, p.ahead, i.at_end));
    }

Scanned-stop :
    (f : ℕ → Bool) (l : Lexer)
    → IsInside l
    → (f (peek l).0 ≡ false) ⊎ (length l.input ≤ l.pos)
    → Scanned f l (peek l).1
Scanned-stop f l i stops =
    let p = peek-Peeked l in
    record {
      same_input = p.same_input;
      same_start = p.same_start;
      forward = omega (arith, p.same_pos);
      inside = peek-IsInside l i;
      passes = done (sym p.same_pos);
      stops = rw (peek-eq l (peek l).1 p.same_input p.same_pos, p.same_input, p.same_pos) stops;
    }

pub advance-IsInside :
    (l : Lexer) → IsInside l → l.pos < length l.input → IsInside (advance (peek l).1)
advance-IsInside l i h =
    let p = peek-Peeked l in
    record {
      inside = rw (p.same_input, p.same_pos) (ground (arith, p.ahead));
      at_end = λ e. absurd (ground (arith, p.ahead, i.at_end));
    }

Scanned-step :
    (f : ℕ → Bool) (l m : Lexer)
    → f (peek l).0 ≡ true
    → l.pos < length l.input
    → Scanned f (advance (peek l).1) m
    → Scanned f l m
Scanned-step f l m pass h s =
    let p = peek-Peeked l in
    record {
      same_input = s.same_input ∙ p.same_input;
      same_start = s.same_start ∙ p.same_start;
      forward = omega (arith, s.forward, p.same_pos);
      inside = s.inside;
      passes = more pass h s.passes;
      stops = s.stops;
    }

pub scan_loop-Scanned :
    (fuel : ℕ) (f : ℕ → Bool) (l : Lexer)
    → length l.input < fuel + l.pos
    → IsInside l
    → Scanned f l (scan_loop fuel f l)
unfolding scan_loop
scan_loop-Scanned zero f l e i = absurd (omega (arith, i.inside))
scan_loop-Scanned (suc fuel) f l e i = elim (Bool-cases (f (peek l).0)) [
  | inr fails ↦ rw fails (Scanned-stop f l i (inl fails))
  | inl pass ↦ rw pass (elim (peek-Peeked l).ahead [
    | inl (end, eof, w) ↦ rw eof (Scanned-stop f l i (inr end))
    | inr (h, eof, w, room) ↦
        let p = peek-Peeked l in
        let goes : ((peek l).1.eof || (peek l).1.width == 0) ≡ false = ground (arith, i.at_end) in
        rw goes (
          Scanned-step f l _ pass h (
            scan_loop-Scanned fuel f (advance (peek l).1)
              (rw (p.same_input, p.same_pos) (omega arith)) (advance-IsInside l i h)))
  ])
]

-- What the text between two positions is.
abbrev pub IsBetween : Lexer → Bytes → Lexer → Type 0
IsBetween l t m = drop l.pos l.input ≡ t ++ drop m.pos l.input

slice_between : (s : Bytes) (a b : ℕ) → a ≤ b → drop a s ≡ slice s a b ++ drop b s
slice_between s a b h =
    sym (take-append-drop (b - a) (drop a s))
    ∙ ap (λ t. slice s a b ++ t) (drop-drop a (b - a) b s (omega arith))

-- From a position in its input, `Scan` stops at the first rune that fails the test, or at the end:
-- it returns the text before that, which is all of runes that pass, keeps the position that it
-- began at for `Rewind`, and stays inside the input.
pub scan-Scanned :
    (f : ℕ → Bool) (l : Lexer)
    → IsInside l
    → Scanned f (record l { start = l.pos }) (scan f l).1 × IsBetween l (scan f l).0 (scan f l).1
unfolding scan
scan-Scanned f l i =
    let s =
      scan_loop-Scanned (suc (length l.input)) f (record l { start = l.pos }) (omega arith)
        (record { inside = i.inside; at_end = i.at_end }) in
    (s, rw (s.same_input, s.same_start) (slice_between l.input l.pos _ s.forward))

not_loop-eq-scan_loop :
    (fuel : ℕ) (f : ℕ → Bool) (l : Lexer) → not_loop fuel f l ≡ scan_loop fuel (λ r. not (f r)) l
unfolding not_loop scan_loop
not_loop-eq-scan_loop zero f l = refl
not_loop-eq-scan_loop (suc fuel) f l = rw (not_loop-eq-scan_loop fuel f (advance (peek l).1))

-- `Not` is `Scan` of the opposite test.
pub scan_not-eq-scan : (f : ℕ → Bool) (l : Lexer) → scan_not f l ≡ scan (λ r. not (f r)) l
unfolding scan_not scan
scan_not-eq-scan f l =
    rw (not_loop-eq-scan_loop (suc (length l.input)) f (record l { start = l.pos }))

-- `Rewind` after `Scan`, of a lexer that is inside its input, undoes it up to the rune's width.
pub rewind-scan :
    (f : ℕ → Bool) (l : Lexer)
    → IsInside l
    → rewind (scan f l).1 ≡ record l { start = l.pos; width = (scan f l).1.width; eof = false }
unfolding rewind
rewind-scan f l i = let s = (scan-Scanned f l i).0 in ground (arith, s.same_input, s.same_start)
