-- ===== src/Markov/Tests.antt =====
-- Runs of the model of util/markov/markov.go.
use sp0rkle.Prelude.{
  ℕ, ◌-◌, ◌^◌, pos, quot, wrap, ◌*ℤ◌, ◌+ℤ◌, ◌-ℤ◌, arith, ◌≤◌, ◌≡◌, refl, Option, some, List, [],
  ◌∷◌, Bytes, codes, bytes_eq, length, if◌then◌else◌,
}
use sp0rkle.Markov.{
  Link, sentence_end, done, panicked, Generated, generate, generate_loop, sum_uses, pick,
}
use sp0rkle.Markov.Walk.{GivesCounts, IsWalk, EndsFor, generate_lem}

abbrev to : Bytes → Link
to w = record { value = w; uses = pos 1 }

abbrev sample_links : Bytes → Option (List Link)
sample_links w =
    if bytes_eq w (codes "go") then some (to sentence_end ∷ []) else some (to (codes "go") ∷ [])

abbrev first : ℕ → ℕ → ℕ
first k n = 0

generate_one :
    generate sample_links first (codes "start") 50
    ≡ some (record { output = codes "go" ∷ []; ending = done })
unfolding generate generate_loop sum_uses pick bytes_eq quot wrap ◌*ℤ◌ ◌+ℤ◌ ◌-ℤ◌
generate_one = refl

-- Two counts whose sum an int does not hold.
abbrev wrapping_links : Bytes → Option (List Link)
wrapping_links w =
    some (record { value = w; uses = pos (2 ^ 63 - 1) } ∷ record { value = w; uses = pos 1 } ∷ [])

generate_wraps :
    generate wrapping_links first (codes "start") 50
    ≡ some (record { output = []; ending = panicked })
unfolding generate generate_loop sum_uses pick bytes_eq quot wrap ◌*ℤ◌ ◌+ℤ◌ ◌-ℤ◌
generate_wraps = refl

sample_counts : GivesCounts sample_links
sample_counts w ls e = ground arith

generate_lem_example :
    (g : Generated) × (generate sample_links first (codes "start") 50 ≡ some g)
    × IsWalk sample_links (codes "start") g.output
    × (length g.output ≤ 50)
    × EndsFor sample_links g.ending 50 (codes "start") g.output
generate_lem_example = generate_lem sample_links first (λ k n h. h) sample_counts (codes "start") 50
