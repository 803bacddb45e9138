-- ===== src/Util/Pointer.antt =====
-- util/utils.go: `FactPointer`, which finds what a factoid refers to. `to_lower` is
-- `strings.ToLower`, and `is_alnum` stands for the tests of package unicode.
pub mod Bounds
use sp0rkle.Prelude.{
  ℕ, ◌+◌, ◌-◌, Bool, Option, none, some, Bytes, length, drop, ◌==◌, if◌then◌else◌,
}
use sp0rkle.Util.Lexer.{Lexer, lexer, byte_at, slice, set_pos, peek, scan}
use sp0rkle.Util.Text.{trim_space}
use sp0rkle.Util.Colours.{Outcome, ok, panic, index}

-- The key, and where the pointer starts and ends; `none` is ("", -1, -1).
abbrev pub Pointer : Type 0
Pointer = Option (Bytes × ℕ × ℕ)

module _ (to_lower : Bytes → Bytes) (is_alnum : ℕ → Bool) where
  -- `*{key}`; with no `}` the slice ends before it starts.
  unfoldable pub braced : ℕ → Bytes → Outcome Pointer
  braced start val = elim (index b'}' (drop start val)) [
    | none ↦ panic
    | some i ↦
        let e = i + start + 1 in
        ok (some (to_lower (trim_space (slice val (start + 2) (e - 1))), start, e))
  ]

  -- `*key`
  unfoldable pub bare : ℕ → Bytes → Pointer
  bare start val =
      let (key, l) = scan is_alnum (set_pos (start + 1) (lexer val)) in
      let (r, _) = peek l in if r == b'*' then none else some (to_lower key, start, l.pos)

  -- From the first `*` on.
  unfoldable pub pointer_at : ℕ → Bytes → Outcome Pointer
  pointer_at start val =
      if start + 1 == length val
      then ok none
      else if byte_at val (start + 1) == b'{'
      then braced start val
      else ok (bare start val)

  -- `FactPointer`
  unfoldable pub fact_pointer : Bytes → Outcome Pointer
  fact_pointer val = elim (index b'*' val) [ none ↦ ok none | some start ↦ pointer_at start val ]
