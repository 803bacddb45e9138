-- ===== src/Util/Lexer.antt =====
-- util/lexer.go: the lexer over a string. Its methods return the new state beside their result.
pub mod Scanning
pub mod Moving
pub mod Number
use sp0rkle.Prelude.{
  ℕ, zero, suc, ◌+◌, ◌-◌, Bool, true, false, not, ◌||◌, Option, none, some, Bytes, length, take,
  drop, get_elem?, ltb, leb, ◌==◌, if◌then◌else◌,
}
use sp0rkle.Util.Utf8.{decode_rune, encode_rune, rune_error}

pub record Lexer : Type 0 where
  pub input : Bytes
  pub start : ℕ
  pub pos : ℕ
  pub width : ℕ
  pub eof : Bool

-- `&Lexer{Input: i}`
abbrev pub lexer : Bytes → Lexer
lexer i = record { input = i; start = 0; pos = 0; width = 0; eof = false }

-- `s[a:b]`, for a ≤ b ≤ len(s).
abbrev pub slice : Bytes → ℕ → ℕ → Bytes
slice s a b = take (b - a) (drop a s)

-- `s[i]`, for i < len(s).
abbrev pub byte_at : Bytes → ℕ → ℕ
byte_at s i = elim (get_elem? s i) [ none ↦ 0 | some b ↦ b ]

-- `Pos(n)`; `Pos()` is the field.
unfoldable pub set_pos : ℕ → Lexer → Lexer
set_pos n l = if ltb n (length l.input) then record l { eof = false; pos = n } else l

unfoldable pub peek : Lexer → ℕ × Lexer
peek l =
    if leb (length l.input) l.pos
    then (0, record l { eof = true; width = 0 })
    else let (r, w) = decode_rune (drop l.pos l.input) in
      if r == rune_error
      then (byte_at l.input l.pos, record l { width = 1 })
      else (r, record l { width = w })

unfoldable pub at_eof : Lexer → Bool × Lexer
at_eof l = let (_, l') = peek l in (l'.eof, l')

abbrev pub advance : Lexer → Lexer
advance l = record l { pos = l.pos + l.width }

unfoldable pub next : Lexer → Bytes × Lexer
next l = let (r, l') = peek (record l { start = l.pos }) in (encode_rune r, advance l')

-- The loop of `Scan`; a round of it moves on by one rune, so that the fuel of `scan` is enough.
unfoldable pub scan_loop : ℕ → (ℕ → Bool) → Lexer → Lexer
scan_loop zero f l = l
scan_loop (suc fuel) f l =
    let (r, l') = peek l in
    let more = scan_loop fuel f (advance l') in
    if f r then (if l'.eof || l'.width == 0 then l' else more) else l'

unfoldable pub scan : (ℕ → Bool) → Lexer → Bytes × Lexer
scan f l =
    let l' = scan_loop (suc (length l.input)) f (record l { start = l.pos }) in
    (slice l'.input l'.start l'.pos, l')

-- The loop of `Not`, which the source writes out again.
unfoldable pub not_loop : ℕ → (ℕ → Bool) → Lexer → Lexer
not_loop zero f l = l
not_loop (suc fuel) f l =
    let (r, l') = peek l in
    let more = not_loop fuel f (advance l') in
    if not (f r) then (if l'.eof || l'.width == 0 then l' else more) else l'

unfoldable pub scan_not : (ℕ → Bool) → Lexer → Bytes × Lexer
scan_not f l =
    let l' = not_loop (suc (length l.input)) f (record l { start = l.pos }) in
    (slice l'.input l'.start l'.pos, l')

unfoldable pub find : ℕ → Lexer → Bytes × Lexer
find r = scan (λ n. not (r == n))

unfoldable pub rewind : Lexer → Lexer
rewind l = record l { eof = false; pos = l.start }
