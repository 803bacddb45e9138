-- ===== src/Datetime/Lex/Ends.antt =====
-- `Lex` of util/datetime/lexer.go goes on with every token, and looks no empty word up.
use sp0rkle.Prelude.{
  if_both, ◌++◌, not, drop, ℕ, ◌<◌, ◌≡◌, refl, ap, subst, ◌∙◌, ◌⊎◌, inl, inr, Bool, true, false,
  Option, none, some, Bytes, length, arith, leb, ltb, ◌==◌, Bool-cases, length-append, length-drop,
}
use sp0rkle.Util.Unicode.{Unicode}
use sp0rkle.Util.Utf8.{encode_rune}
use sp0rkle.Util.Lexer.{Lexer, peek, next, scan, scan_not, rewind, set_pos}
use sp0rkle.Util.Lexer.Scanning.{IsInside, peek-Peeked, peek-eq, scan-Scanned, scan_not-eq-scan}
use sp0rkle.Util.Lexer.Moving.{
  Moves, Moves-trans, peek_end, peek-Moves, next-Moves_rune, rewind-next-Moves, next_start,
  scan-Moves, scan-Moves_rune,
}
use sp0rkle.Datetime.Tables.{t_zone}
use sp0rkle.Datetime.Words.{Left, Found, hit, miss, out_of_range, zone}
use sp0rkle.Datetime.Words.InRange.{InRange, token_lookup-InRange}
use sp0rkle.Datetime.Lex.{
  Strings, Lexed, rune_token, letter_token, zone_token, word_token, integer_token, lex_at, lex,
}

-- What the proofs need of the parameters: 0 is no letter and no digit, and its upper case is itself;
-- the upper case of a text that is not empty is not empty.
pub record IsText (U : Unicode) (L : Type 0) (S : Strings L) : Type 0 where
  pub no_letter : U.is_letter 0 ≡ false
  pub no_digit : U.is_digit 0 ≡ false
  pub upper_zero : S.upper_rune 0 ≡ 0
  pub upper_nonempty : (s : Bytes) → 0 < length s → 0 < length (S.to_upper s)

encode_rune_nonempty : (r : ℕ) → 0 < length (encode_rune r)
unfolding encode_rune
encode_rune_nonempty r = ground arith

next_nonempty : (l : Lexer) → 0 < length (next l).0
unfolding next
next_nonempty l = encode_rune_nonempty _

scan_not-Moves : (f : ℕ → Bool) (l : Lexer) → IsInside l → Moves 0 l (scan_not f l).1
scan_not-Moves f l i = rw (scan_not-eq-scan f l) (scan-Moves (λ r. not (f r)) l i)

scan_nonempty :
    (f : ℕ → Bool) (l : Lexer) → IsInside l → Moves 1 l (scan f l).1 → 0 < length (scan f l).0
scan_nonempty f l i m =
    let m' = (scan f l).1 in
    let (_, between) = scan-Scanned f l i in
    let total = length-append (scan f l).0 (drop m'.pos l.input) in
    let left = length-drop m'.pos l.input in
    let right = length-drop l.pos l.input in
    omega (
      arith,
      ap length between,
      total,
      left,
      right,
      m.forward,
      m.is_inside.inside,
      ap length m.same_input,
    )

set_pos-Moves :
    (l m : Lexer) → m.input ≡ l.input → l.pos < length l.input → Moves 0 l (set_pos l.pos m)
unfolding set_pos
set_pos-Moves l m e h =
    let fits : ltb l.pos (length m.input) ≡ true = ground (arith, ap length e) in
    rw fits (record {
      same_input = e;
      forward = omega arith;
      is_inside = record {
        inside = omega (arith, ap length e);
        at_end = λ end. absurd (ground arith);
      };
    })

set_pos-pos :
    (l m : Lexer) → m.input ≡ l.input → l.pos < length l.input → (set_pos l.pos m).pos ≡ l.pos
unfolding set_pos
set_pos-pos l m e h =
    let fits : ltb l.pos (length m.input) ≡ true = ground (arith, ap length e) in rw fits refl

-- A rune that passes a test that 0 fails is not the end.
within_of : (f : ℕ → Bool) (l : Lexer) → f 0 ≡ false → f (peek l).0 ≡ true → l.pos < length l.input
within_of f l z e = elim (Bool-cases (leb (length l.input) l.pos)) [
  | inl end ↦ absurd (ground (arith, ap f (peek_end l (ground arith))))
  | inr inside ↦ ground arith
]

-- There is a token, and it is the end or takes something from the input.
abbrev pub Takes : {V : Type 0} → Lexer → Option (ℕ × Lexer × V) → Type 0
Takes l none = ⊥
Takes l (some (t, m, v)) = (t ≡ 0) ⊎ Moves 1 l m

module _ (U : Unicode) (L : Type 0) (S : Strings L) (text : IsText U L S) where
  open U use {is_space, is_letter, is_digit}

  rune_token-Takes :
      (l : Lexer) (v : Left L) → IsInside l → Takes l (rune_token U L S (peek l).0 l v)
  unfolding rune_token
  rune_token-Takes l v i = elim (Bool-cases (leb (length l.input) l.pos)) [
    | inl end ↦ inl (ap S.upper_rune (peek_end l (ground arith)) ∙ text.upper_zero)
    | inr inside ↦ inr (next-Moves_rune l i (ground arith))
  ]

  -- The result of a look-up, or else what comes of none.
  found-Takes :
      (l m : Lexer) (f : Found L) (else_token : Lexed U L S)
      → InRange f
      → Moves 1 l m
      → Takes l else_token
      → Takes l (elim f [ hit t v ↦ some (t, m, v) | miss ↦ else_token | out_of_range ↦ none ])
  found-Takes l m (hit t v) e r h k = inr h
  found-Takes l m miss e r h k = k
  found-Takes l m out_of_range e r h k = r

  Takes-from : (l k : Lexer) (r : Lexed U L S) → Moves 0 l k → Takes k r → Takes l r
  Takes-from l k none m h = h
  Takes-from l k (some (t, o, v)) m (inl e) = inl e
  Takes-from l k (some (t, o, v)) m (inr h) = inr (Moves-trans 0 1 l k o m h)

  -- Before a rune any character stands for a token.
  char_token-Takes :
      (c : ℕ) (l : Lexer) (v : Left L)
      → IsInside l
      → l.pos < length l.input
      → Takes l (rune_token U L S c l v)
  unfolding rune_token
  char_token-Takes c l v i h = inr (next-Moves_rune l i h)

  rewound_token-Takes :
      (c : ℕ) (l : Lexer) (v : Left L)
      → IsInside l
      → l.pos < length l.input
      → Takes l (rune_token U L S c (rewind (next l).1) v)
  rewound_token-Takes c l v i h =
      let k = rewind (next l).1 in
      let m = rewind-next-Moves l i in
      let back : k.pos ≡ l.pos = unfold rewind in (next_start l).1 in
      Takes-from l k _ m
        (char_token-Takes c k v m.is_inside (omega (arith, back, ap length m.same_input)))

  letter_token-Takes :
      (c : ℕ) (input : Bytes) (l : Lexer) (v : Left L)
      → IsInside l
      → l.pos < length l.input
      → Takes l (letter_token U L S c input l v)
  unfolding letter_token
  letter_token-Takes c input l v i h =
      if_both (Takes l) (ltb 1 (length input)) _ _
        (λ _.
          found-Takes l (next l).1 _ _
            (token_lookup-InRange L (S.load_location) _ v
              (text.upper_nonempty (next l).0 (next_nonempty l)))
            (next-Moves_rune l i h) (rewound_token-Takes c l v i h))
        (λ _. char_token-Takes c l v i h)

  zoned-Takes :
      (l m : Lexer) (z : Option L) (v : Left L) (else_token : Lexed U L S)
      → Moves 1 l m
      → Takes l else_token
      → Takes l (elim z [
        | some place ↦ some (t_zone, m, record v { zoneval = some place })
        | none ↦ else_token
      ])
  zoned-Takes l m none v e h k = k
  zoned-Takes l m (some place) v e h k = inr h

  zone_token-Takes :
      (c : ℕ) (input : Bytes) (l m : Lexer) (v : Left L)
      → IsInside l
      → l.pos < length l.input
      → Moves 1 l m
      → Takes l (zone_token U L S c l.pos input m v)
  unfolding zone_token
  zone_token-Takes c input l m v i h a =
      let tail = scan_not-Moves is_space m a.is_inside in
      let b = Moves-trans 1 0 l m _ a tail in
      let back = set_pos-Moves l (scan_not is_space m).1 b.same_input h in
      let k = set_pos l.pos (scan_not is_space m).1 in
      let stays : k.pos ≡ l.pos = set_pos-pos l (scan_not is_space m).1 b.same_input h in
      let (z, cache) = zone L (S.load_location) v.cache (input ++ (scan_not is_space m).0) in
      let v' = record v { cache = cache } in
      zoned-Takes l (scan_not is_space m).1 z v' _ b (
        Takes-from l k _ back (
          letter_token-Takes c input k v' back.is_inside
            (omega (arith, stays, ap length back.same_input))))

  word_token-Takes :
      (c : ℕ) (l : Lexer) (v : Left L)
      → IsInside l
      → is_letter (peek l).0 ≡ true
      → Takes l (word_token U L S c l v)
  unfolding word_token
  word_token-Takes c l v i e =
      let h = within_of is_letter l text.no_letter e in
      let m = scan-Moves_rune is_letter l i e h in
      found-Takes l (scan is_letter l).1 _ _
        (token_lookup-InRange L (S.load_location) _ v
          (text.upper_nonempty (scan is_letter l).0 (scan_nonempty is_letter l i m)))
        m (zone_token-Takes c (scan is_letter l).0 l (scan is_letter l).1 v i h m)

  lex_at-Takes : (l : Lexer) (v : Left L) → IsInside l → Takes l (lex_at U L S (peek l).0 l v)
  unfolding lex_at integer_token
  lex_at-Takes l v i =
      let c = (peek l).0 in
      if_both (Takes l) (c == b'+') _ _
        (λ e. inr (next-Moves_rune l i (within_of (λ r. r == b'+') l refl e)))
        (λ _.
          if_both (Takes l) (c == b'-') _ _
            (λ e. inr (next-Moves_rune l i (within_of (λ r. r == b'-') l refl e)))
            (λ _.
              if_both (Takes l) (is_digit c) _ _
                (λ e. inr (scan-Moves_rune is_digit l i e (within_of is_digit l text.no_digit e)))
                (λ _.
                  if_both (Takes l) (is_letter c) _ _ (λ e. word_token-Takes c l v i e)
                    (λ _. rune_token-Takes l v i))))

  -- If 0 is no letter and no digit and its own upper case, and no text but the empty one has an
  -- empty upper case, then from a position inside its input Lex returns, with no index out of
  -- range, a token that is 0 or for which it has taken at least a byte of the input.
  pub lex-Takes : (l : Lexer) (v : Left L) → IsInside l → Takes l (lex U L S l v)
  unfolding lex
  lex-Takes l v i =
      let a = scan-Moves is_space l i in
      let s = (scan is_space l).1 in
      let b = Moves-trans 0 0 l s _ a (peek-Moves s a.is_inside) in
      let p = peek-Peeked s in
      let same = peek-eq s (peek s).1 p.same_input p.same_pos in
      Takes-from l (peek s).1 _ b (
        subst (λ r. Takes (peek s).1 (lex_at U L S r (peek s).1 v)) same
          (lex_at-Takes (peek s).1 v b.is_inside))
