-- ===== src/Datetime/Tables.antt =====
-- util/datetime/tokenmaps.go: the tables of the words that the date lexer knows.
use sp0rkle.Prelude.{ℕ, ℤ, pos, negsuc, Bytes, codes, List, [], ◌∷◌}

-- The numbers of the tokens, as y.go has them.
abbrev pub t_of : ℕ
t_of = 57346

abbrev pub t_the : ℕ
t_the = 57347

abbrev pub t_ignore : ℕ
t_ignore = 57348

abbrev pub t_dayqual : ℕ
t_dayqual = 57349

abbrev pub t_second : ℕ
t_second = 57350

abbrev pub t_integer : ℕ
t_integer = 57351

abbrev pub t_plus : ℕ
t_plus = 57352

abbrev pub t_minus : ℕ
t_minus = 57353

abbrev pub t_midtime : ℕ
t_midtime = 57354

abbrev pub t_monthname : ℕ
t_monthname = 57355

abbrev pub t_dayname : ℕ
t_dayname = 57356

abbrev pub t_days : ℕ
t_days = 57357

abbrev pub t_dayshift : ℕ
t_dayshift = 57358

abbrev pub t_offset : ℕ
t_offset = 57359

abbrev pub t_isoyd : ℕ
t_isoyd = 57360

abbrev pub t_isohs : ℕ
t_isohs = 57361

abbrev pub t_relative : ℕ
t_relative = 57362

abbrev pub t_ago : ℕ
t_ago = 57363

abbrev pub t_zone : ℕ
t_zone = 57364

-- `wordTokenMap`, `numTokenMap`, `abbrTokenMap` and `relTokenMap`.
abbrev pub word_table : List (Bytes × ℕ)
word_table =
    (codes "THE", t_the)
    ∷ (codes "OF", t_of)
    ∷ (codes "IN", t_ignore)
    ∷ (codes "AT", t_ignore)
    ∷ (codes "ON", t_ignore)
    ∷ (codes "SECOND", t_second)
    ∷ (codes "SECONDS", t_second)
    ∷ []

abbrev pub num_table : List (Bytes × (ℕ × ℤ))
num_table =
    (codes "AGO", (t_ago, negsuc 0))
    ∷ (codes "YEAR", (t_offset, pos 5))
    ∷ (codes "Y", (t_isoyd, pos 5))
    ∷ (codes "MONTH", (t_offset, pos 4))
    ∷ (codes "FORTNIGHT", (t_days, pos 14))
    ∷ (codes "WEEK", (t_days, pos 7))
    ∷ (codes "DAY", (t_offset, pos 3))
    ∷ (codes "D", (t_isoyd, pos 3))
    ∷ (codes "NIGHT", (t_offset, pos 3))
    ∷ (codes "HOUR", (t_offset, pos 2))
    ∷ (codes "H", (t_isohs, pos 2))
    ∷ (codes "MINUTE", (t_offset, pos 1))
    ∷ (codes "MIN", (t_offset, pos 1))
    ∷ (codes "SEC", (t_offset, pos 0))
    ∷ (codes "S", (t_isohs, pos 0))
    ∷ (codes "TOMORROW", (t_dayshift, pos 1))
    ∷ (codes "YESTERDAY", (t_dayshift, negsuc 0))
    ∷ (codes "TODAY", (t_dayshift, pos 0))
    ∷ (codes "NOW", (t_dayshift, pos 0))
    ∷ (codes "ST", (t_dayqual, pos 1))
    ∷ (codes "ND", (t_dayqual, pos 2))
    ∷ (codes "RD", (t_dayqual, pos 3))
    ∷ (codes "TH", (t_dayqual, pos 4))
    ∷ (codes "MIDDAY", (t_midtime, pos 12))
    ∷ (codes "MIDNIGHT", (t_midtime, pos 0))
    ∷ []

abbrev pub abbr_table : List (Bytes × (ℕ × ℤ))
abbr_table =
    (codes "JAN", (t_monthname, pos 1))
    ∷ (codes "FEB", (t_monthname, pos 2))
    ∷ (codes "MAR", (t_monthname, pos 3))
    ∷ (codes "APR", (t_monthname, pos 4))
    ∷ (codes "MAY", (t_monthname, pos 5))
    ∷ (codes "JUN", (t_monthname, pos 6))
    ∷ (codes "JUL", (t_monthname, pos 7))
    ∷ (codes "AUG", (t_monthname, pos 8))
    ∷ (codes "SEP", (t_monthname, pos 9))
    ∷ (codes "OCT", (t_monthname, pos 10))
    ∷ (codes "NOV", (t_monthname, pos 11))
    ∷ (codes "DEC", (t_monthname, pos 12))
    ∷ (codes "MON", (t_dayname, pos 1))
    ∷ (codes "TUE", (t_dayname, pos 2))
    ∷ (codes "WED", (t_dayname, pos 3))
    ∷ (codes "THU", (t_dayname, pos 4))
    ∷ (codes "FRI", (t_dayname, pos 5))
    ∷ (codes "SAT", (t_dayname, pos 6))
    ∷ (codes "SUN", (t_dayname, pos 0))
    ∷ []

abbrev pub rel_table : List (Bytes × ℤ)
rel_table =
    (codes "LAST", negsuc 0)
    ∷ (codes "THIS", pos 0)
    ∷ (codes "NEXT", pos 1)
    ∷ (codes "AN", pos 1)
    ∷ (codes "FIRST", pos 1)
    ∷ (codes "ONE", pos 1)
    ∷ (codes "TWO", pos 2)
    ∷ (codes "THIRD", pos 3)
    ∷ (codes "THREE", pos 3)
    ∷ (codes "FOURTH", pos 4)
    ∷ (codes "FOUR", pos 4)
    ∷ (codes "FIFTH", pos 5)
    ∷ (codes "FIVE", pos 5)
    ∷ (codes "SIXTH", pos 6)
    ∷ (codes "SIX", pos 6)
    ∷ (codes "SEVENTH", pos 7)
    ∷ (codes "SEVEN", pos 7)
    ∷ (codes "EIGHTH", pos 8)
    ∷ (codes "EIGHT", pos 8)
    ∷ (codes "NINTH", pos 9)
    ∷ (codes "NINE", pos 9)
    ∷ (codes "TENTH", pos 10)
    ∷ (codes "TEN", pos 10)
    ∷ (codes "ELEVENTH", pos 11)
    ∷ (codes "TWELFTH", pos 12)
    ∷ []
