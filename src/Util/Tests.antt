-- ===== src/Util/Tests.antt =====
-- Runs of the models of util/.
use sp0rkle.Prelude.{
  ℕ, ◌≡◌, refl, Bool, true, none, ◌∷◌, ◌++◌, Bytes, codes, count, arith, not, ◌&&◌, leb,
}
use sp0rkle.Util.Colours.{ok, panic, index, colour_end, remove_colours_loop, remove_colours}
use sp0rkle.Util.Colours.Codes.{in_code, SkipsCodes, remove_colours_lem}
use sp0rkle.Util.Colours.Runout.{remove_colours-panic}
use sp0rkle.Util.Lexer.{lexer, peek, scan_loop, scan}
use sp0rkle.Util.Utf8.{decode_rune}
use sp0rkle.Util.Text.{has_prefix, trim_space}
use sp0rkle.Util.Nick.{has_prefixed_nick, remove_prefixed_nick}

abbrev other_bytes : ℕ → Bool
other_bytes b = not (in_code b)

other_bytes-SkipsCodes : SkipsCodes other_bytes
other_bytes-SkipsCodes b h = rw h

abbrev coloured : Bytes
coloured = codes "a " ++ (3 ∷ codes "04,12red" ++ 3 ∷ codes "!")

remove_colours_example : remove_colours coloured ≡ ok (codes "a red!")
unfolding remove_colours remove_colours_loop colour_end index
remove_colours_example = refl

remove_colours_lem_example :
    (t : Bytes) × (remove_colours coloured ≡ ok t)
    × (index 3 t ≡ none)
    × (count other_bytes t ≡ count other_bytes coloured)
remove_colours_lem_example = remove_colours_lem other_bytes coloured other_bytes-SkipsCodes refl

remove_colours-panic_example : remove_colours (codes "red" ++ 3 ∷ codes "04") ≡ panic
remove_colours-panic_example =
    remove_colours-panic (codes "red") (codes "04") (unfold index in refl)
      ((refl, (refl, tt)), omega arith)

abbrev is_ascii_digit : ℕ → Bool
is_ascii_digit r = leb b'0' r && leb r b'9'

scan_digits : (scan is_ascii_digit (lexer (codes "42 is"))).0 ≡ codes "42"
unfolding scan scan_loop peek decode_rune
scan_digits = refl

-- A nick with its mark is cut off, and the spaces behind it.
remove_prefixed_nick_example :
    remove_prefixed_nick (λ s. s) (codes "foo-   lots of space") (codes "foo")
    ≡ (codes "lots of space", true)
unfolding remove_prefixed_nick has_prefixed_nick has_prefix trim_space
remove_prefixed_nick_example = refl
