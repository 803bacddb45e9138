-- ===== src/Calc/Token.antt =====
-- util/calc/calc.go: the tables of operators, functions and precedences, and the tokens.
-- Numbers are an abstract type with the operations of Go's float64 and of package math that the
-- tables name; a token of kind T_FUNC keeps its argument counter in its entry of `argcs`.
use sp0rkle.Prelude.{
  ℕ, Bool, true, false, ◌&&◌, ◌||◌, Option, none, some, List, [], ◌∷◌, Bytes, codes, lookup, ltb,
  ◌==◌,
}

-- The functions of one argument that the tables name.
pub data Math1 : Type 0 where
  abs acos acosh asin asinh atan atanh cbrt ceil cos cosh exp exp2 floor gamma trunc : Math1
  log log10 log2 logb sin sinh sqrt tan tanh : Math1

-- The functions and operators of two arguments that the tables name.
pub data Math2 : Type 0 where
  pow mul div fmod add sub atan2 hypot max min : Math2

pub record Float64 : Type 1 where
  pub Num : Type 0
  pub math1 : Math1 → Num → Num
  pub math2 : Math2 → Num → Num → Num

-- `function`: the two currying helpers are its two forms.
pub data Function : Type 0 where
  functionise1 : Math1 → Function
  functionise2 : Math2 → Function

unfoldable pub argc : Function → ℕ
argc (functionise1 _) = 1
argc (functionise2 _) = 2

abbrev pub precedence_map : List (Bytes × (ℕ × Bool))
precedence_map =
    (codes "**", (3, false))
    ∷ (codes "^", (3, false))
    ∷ (codes "*", (2, true))
    ∷ (codes "/", (2, true))
    ∷ (codes "%", (2, true))
    ∷ (codes "+", (1, true))
    ∷ (codes "-", (1, true))
    ∷ []

-- The zero value stands for a name that the map does not hold.
unfoldable pub prec : Bytes → ℕ
unfolding lookup
prec o = elim (lookup o precedence_map) [ none ↦ 0 | some e ↦ e.0 ]

unfoldable pub left_assoc : Bytes → Bool
unfolding lookup
left_assoc o = elim (lookup o precedence_map) [ none ↦ false | some e ↦ e.1 ]

-- Whether reading `o1` pops `o2`.
unfoldable pub precedence : Bytes → Bytes → Bool
precedence o1 o2 = ltb (prec o1) (prec o2) || left_assoc o1 && prec o1 == prec o2

abbrev pub operator_map : List (Bytes × Math2)
operator_map =
    (codes "**", pow)
    ∷ (codes "^", pow)
    ∷ (codes "*", mul)
    ∷ (codes "/", div)
    ∷ (codes "%", fmod)
    ∷ (codes "+", add)
    ∷ (codes "-", sub)
    ∷ []

abbrev pub function_map : List (Bytes × Function)
function_map =
    (codes "abs", functionise1 abs)
    ∷ (codes "acos", functionise1 acos)
    ∷ (codes "acosh", functionise1 acosh)
    ∷ (codes "asin", functionise1 asin)
    ∷ (codes "asinh", functionise1 asinh)
    ∷ (codes "atan", functionise1 atan)
    ∷ (codes "atan2", functionise2 atan2)
    ∷ (codes "atanh", functionise1 atanh)
    ∷ (codes "cbrt", functionise1 cbrt)
    ∷ (codes "ceil", functionise1 ceil)
    ∷ (codes "cos", functionise1 cos)
    ∷ (codes "cosh", functionise1 cosh)
    ∷ (codes "exp", functionise1 exp)
    ∷ (codes "exp2", functionise1 exp2)
    ∷ (codes "floor", functionise1 floor)
    ∷ (codes "gamma", functionise1 gamma)
    ∷ (codes "hypot", functionise2 hypot)
    ∷ (codes "int", functionise1 trunc)
    ∷ (codes "log", functionise1 log)
    ∷ (codes "log10", functionise1 log10)
    ∷ (codes "log2", functionise1 log2)
    ∷ (codes "logb", functionise1 logb)
    ∷ (codes "max", functionise2 max)
    ∷ (codes "min", functionise2 min)
    ∷ (codes "sin", functionise1 sin)
    ∷ (codes "sinh", functionise1 sinh)
    ∷ (codes "sqrt", functionise1 sqrt)
    ∷ (codes "tan", functionise1 tan)
    ∷ (codes "tanh", functionise1 tanh)
    ∷ []

unfoldable pub operator? : Bytes → Option Math2
unfolding lookup
operator? o = lookup o operator_map

unfoldable pub function? : Bytes → Option Function
unfolding lookup
function? f = lookup f function_map

-- `functionMap[f].argc`, with the zero value for a name that the map does not hold.
unfoldable pub argc_of : Bytes → ℕ
unfolding argc
argc_of f = elim (function? f) [ none ↦ 0 | some g ↦ argc g ]

pub data Token (N : Type 0) : Type 0 where
  eof lpar rpar comma : Token N
  nfi op func : Bytes → Token N
  num : N → Token N
