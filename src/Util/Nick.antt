-- ===== src/Util/Nick.antt =====
-- util/utils.go: texts that are addressed to a nick. `to_lower` is `strings.ToLower`.
use sp0rkle.Prelude.{
  ◌+◌, Bool, true, false, ◌||◌, Bytes, codes, length, drop, leb, ◌==◌, if◌then◌else◌,
}
use sp0rkle.Util.Lexer.{byte_at}
use sp0rkle.Util.Text.{has_prefix, contains, trim_space}

module _ (to_lower : Bytes → Bytes) where
  unfoldable pub has_prefixed_nick : Bytes → Bytes → Bool
  has_prefixed_nick text nick =
      if leb (length text) (length nick)
      then false
      else if has_prefix (to_lower text) (to_lower nick)
      then (let c = byte_at text (length nick) in
          c == b':' || (c == b';' || (c == b',' || (c == b'>' || c == b'-'))))
      else false

  unfoldable pub remove_prefixed_nick : Bytes → Bytes → Bytes × Bool
  remove_prefixed_nick text nick =
      if has_prefixed_nick text nick
      then (trim_space (drop (length nick + 1) text), true)
      else (text, false)

  unfoldable pub is_factoid_addition : Bytes → Bool
  unfolding contains
  is_factoid_addition s =
      let low = to_lower s in contains low (codes ":is") || contains low (codes ":=")
