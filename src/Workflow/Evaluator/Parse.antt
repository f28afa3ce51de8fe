-- ===== src/Workflow/Evaluator/Parse.antt =====
-- How a condition is taken apart.
use suzuran.Prelude.{ℕ, ◌≡◌, Bool, false, Option, [], ◌∷◌, ◌++◌, ◌==◌, ◌||◌, All}
use suzuran.Prelude.Result.{Result}
use suzuran.Prelude.Text.{Text, is_space, trim, before}
use suzuran.Workflow.Model.{Variables}
use suzuran.Workflow.Evaluator.{Float64, Op, ge, le, eq, ne, gt, lt, symbol, compare}

-- one of the characters that operators are made of
abbrev pub is_op_char : ℕ → Bool
is_op_char c = c == b'>' || c == b'<' || c == b'=' || c == b'!'

abbrev pub IsClean : Text → Type 0
IsClean = All (λ c. is_op_char c ≡ false)

abbrev prefixed : Text → Option (Text × Text) → Option (Text × Text)
prefixed [] o = o
prefixed (c ∷ l) o = before c (prefixed l o)

-- the place of an operator in the list that the code tries in turn
abbrev rank : Op → ℕ
rank ge = 0
rank le = 1
rank eq = 2
rank ne = 3
rank gt = 4
rank lt = 5

module _ (f : Float64) (vars : Variables f.Carrier) where
  abbrev at_op : Op → Text → Text → Result Bool
  at_op op l r = compare f (trim is_space l) op (trim is_space r) vars

  module _ (c : ℕ) (l r : Text) (hl : IsClean (c ∷ l)) (hr : IsClean r) where
    abbrev expr : Op → Text
    expr op = (c ∷ l) ++ (symbol op ++ r)
