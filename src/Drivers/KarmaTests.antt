-- ===== src/Drivers/KarmaTests.antt =====
-- Runs of the model of drivers/karmadriver, with tests of its karmadriver_test.go.
use sp0rkle.Prelude.{
  ℕ, ◌+◌, ◌≡◌, refl, sym, subst, inl, inr, Bool-cases, Bool, true, false, ◌&&◌, Option, none, some,
  List, [], ◌∷◌, Bytes, codes, bytes_eq, bytes_eq_iff, leb, All, arith, ℤ, pos, sub_ℕ, pos_part,
  neg_part, wrap, ◌+ℤ◌, count, if◌then◌else◌,
}
use sp0rkle.Util.Utf8.{decode_rune}
use sp0rkle.Util.Text.{is_space}
use sp0rkle.Util.Lexer.{peek, at_eof, next, scan, scan_loop, find}
use sp0rkle.Db.Key.{to_buckets, split_last, bytes, name, value_bytes, is_valid, has_usep}
use sp0rkle.Db.Bolt.{Codec, BucketPath}
use sp0rkle.Db.Bolt.Memory.{Memory, empty_memory, path_eq, is_within, value_at, create_in, put_in}
use sp0rkle.Db.Bolt.Memory.Laws.{memory}
use sp0rkle.Db.Keyed
use sp0rkle.Collections.Karma.{Karma, karma_for, put}
use sp0rkle.Drivers.Karma.{Thing, read_thing, things_loop, karma_things, voted, record_karma}
use sp0rkle.Drivers.Karma.Things.{IsNamed, karma_things-IsNamed}
use sp0rkle.Drivers.Karma.Counting.{
  score_of, votes_of, net, is_for, score_in, votes_in, IsConsistent, record_karma-score,
}
use sp0rkle.Drivers.Karma.Bounds.{Fits}

abbrev is_letter : ℕ → Bool
is_letter r = leb b'a' r && leb r b'z'

abbrev thing_of : Bytes → Bool → Thing
thing_of t p = record { thing = t; plus = p }

things_many :
    karma_things is_letter (codes "a++ b-- c++")
    ≡ some (thing_of (codes "c") true ∷ thing_of (codes "b") false ∷ thing_of (codes "a") true ∷ [])
unfolding karma_things things_loop read_thing peek at_eof next scan scan_loop find decode_rune
    is_space bytes_eq
things_many = refl

things_brackets :
    karma_things is_letter (codes " (a b c)-- d++ ")
    ≡ some (thing_of (codes "d") true ∷ thing_of (codes "a b c") false ∷ [])
unfolding karma_things things_loop read_thing peek at_eof next scan scan_loop find decode_rune
    is_space bytes_eq
things_brackets = refl

things_none : karma_things is_letter (codes "a b c)++ foo -- bar") ≡ some []
unfolding karma_things things_loop read_thing peek at_eof next scan scan_loop find decode_rune
    is_space bytes_eq
things_none = refl

karma_things-IsNamed_example :
    (ts : List Thing) × (karma_things is_letter (codes "a++ ()--") ≡ some ts) × All IsNamed ts
karma_things-IsNamed_example = karma_things-IsNamed is_letter (codes "a++ ()--")

-- An encoding of what n has voted on c.
abbrev is_ours : Karma → Bool
is_ours k =
    bytes_eq k.subject (codes "c")
    && (bytes_eq k.key (codes "c") && (bytes_eq k.upvoter (codes "n") && bytes_eq k.downvoter []))

abbrev numbers : Karma → Bytes
numbers k =
    pos_part k.score
    ∷ neg_part k.score
    ∷ pos_part k.votes
    ∷ neg_part k.votes
    ∷ k.upvtime
    ∷ k.downvtime
    ∷ []

abbrev marshal : Karma → Option Bytes
marshal k = if is_ours k then some (numbers k) else none

abbrev unmarshal : Bytes → Option Karma
unmarshal (a ∷ b ∷ c ∷ d ∷ u ∷ v ∷ []) = some (record {
  subject = codes "c";
  key = codes "c";
  score = sub_ℕ a b;
  votes = sub_ℕ c d;
  upvoter = codes "n";
  upvtime = u;
  downvoter = [];
  downvtime = v;
})
unmarshal _ = none

parts_back : (z : ℤ) → sub_ℕ (pos_part z) (neg_part z) ≡ z
parts_back z = ground arith

unmarshal-marshal : (k : Karma) (d : Bytes) → marshal k ≡ some d → unmarshal d ≡ some k
unmarshal-marshal k d e = elim (Bool-cases (is_ours k)) [
  | inr n ↦ absurd (ground (arith, n))
  | inl y ↦
      let same : numbers k ≡ d = ground (arith, y) in
      let subject = (bytes_eq_iff k.subject (codes "c")).0 (ground arith) in
      let key = (bytes_eq_iff k.key (codes "c")).0 (ground arith) in
      let upvoter = (bytes_eq_iff k.upvoter (codes "n")).0 (ground arith) in
      let downvoter = (bytes_eq_iff k.downvoter []).0 (ground arith) in
      subst (λ d. unmarshal d ≡ some k) same
        (λ i. some (record {
          subject = sym subject i;
          key = sym key i;
          score = parts_back k.score i;
          votes = parts_back k.votes i;
          upvoter = sym upvoter i;
          upvtime = k.upvtime;
          downvoter = sym downvoter i;
          downvtime = k.downvtime;
        }))
]

abbrev codec : Codec Karma
codec = record { marshal = marshal; unmarshal = unmarshal; unmarshal_marshal = unmarshal-marshal }

abbrev root : BucketPath
root = codes "karma" ∷ []

abbrev registered : Memory
registered = record empty_memory { buckets = root ∷ [] }

abbrev same_case : Bytes → Bytes
same_case s = s

abbrev clock : ℕ → ℕ
clock n = 100 + n

abbrev votes : List Thing
votes = thing_of (codes "c") true ∷ thing_of (codes "c") true ∷ []

abbrev stored : Memory
stored = (record_karma memory codec root same_case (codes "n") clock votes registered).0

two_votes :
    record_karma memory codec root same_case (codes "n") clock votes registered ≡ (stored, [])
unfolding record_karma put Keyed.put Keyed.prepare Keyed.put_tx Keyed.create Keyed.to_bson Keyed.get
    Keyed.find Keyed.from_bson Keyed.suffix is_valid has_usep name to_buckets split_last bytes
    value_bytes voted karma_for memory value_at create_in put_in is_within path_eq bytes_eq wrap
    ◌+ℤ◌
two_votes = refl

nothing_yet : (s : Bytes) → karma_for memory codec root same_case s registered ≡ none
unfolding karma_for Keyed.get Keyed.find to_buckets split_last bytes name value_bytes memory
    is_within bytes_eq value_at
nothing_yet s = ground arith

registered-IsConsistent : IsConsistent memory codec root same_case (codes "n") registered
registered-IsConsistent s = rw (nothing_yet s) tt

no_votes-Fits :
    (f : Option Karma → ℤ)
    → f none ≡ pos 0
    → Fits 2 (f (karma_for memory codec root same_case (codes "c") registered))
no_votes-Fits f e = rw (nothing_yet (codes "c"), e) (omega arith)

record_karma-score_example :
    (score_in memory codec root same_case (codes "n") (codes "c") stored
      ≡ score_in memory codec root same_case (codes "n") (codes "c") registered
        +ℤ net same_case (codes "c") votes)
    × (votes_in memory codec root same_case (codes "n") (codes "c") stored
        ≡ votes_in memory codec root same_case (codes "n") (codes "c") registered
          +ℤ pos (count (is_for same_case (codes "c")) votes))
    × IsConsistent memory codec root same_case (codes "n") stored
record_karma-score_example =
    record_karma-score memory codec root same_case (codes "n") clock votes registered stored
      (codes "c") two_votes registered-IsConsistent (no_votes-Fits score_of refl)
      (no_votes-Fits votes_of refl)
