-- ===== src/Util/Unicode.antt =====
-- The tests of package unicode that the lexers of util/ make.
use sp0rkle.Prelude.{ℕ, Bool}

pub record Unicode : Type 0 where
  pub is_space : ℕ → Bool
  pub is_letter : ℕ → Bool
  pub is_digit : ℕ → Bool
