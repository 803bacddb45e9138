-- ===== src/Util/Since.antt =====
-- util/utils.go: `TimeSince`, from the seconds on. `itoa` is the verb %d of package fmt.
pub mod Parts
use sp0rkle.Prelude.{
  ℕ, ◌-◌, List, [], ◌∷◌, ◌++◌, Bytes, codes, length, take, ltb, if◌then◌else◌, ℤ, pos, ltb_ℤ, quot,
  rem,
}

abbrev pub units : List (ℕ × Bytes)
units =
    (31536000, codes "y")
    ∷ (604800, codes "w")
    ∷ (86400, codes "d")
    ∷ (3600, codes "h")
    ∷ (60, codes "m")
    ∷ (1, codes "s")
    ∷ []

-- A number of units.
pub record Part : Type 0 where
  pub div : ℤ
  pub d : ℕ
  pub s : Bytes

-- The units that the loop writes.
unfoldable pub parts : ℤ → List (ℕ × Bytes) → List Part
parts sec [] = []
parts sec ((d, s) ∷ us) =
    let div = quot sec d in
    let rest = parts (rem sec d) us in
    if ltb_ℤ (pos 0) div then record { div = div; d = d; s = s } ∷ rest else rest

-- `fmt.Sprintf("%s%d%s ", ...)`, one after the other.
abbrev pub written : (ℤ → Bytes) → List Part → Bytes
written itoa [] = []
written itoa (p ∷ ps) = itoa p.div ++ (p.s ++ (codes " " ++ written itoa ps))

unfoldable pub time_since : (ℤ → Bytes) → ℤ → Bytes
time_since itoa sec =
    let s = written itoa (parts sec units) in if ltb 0 (length s) then take (length s - 1) s else []
