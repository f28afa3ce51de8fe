-- ===== src/Workflow/Evaluator/Errors.antt =====
-- The errors that a condition can have.
use suzuran.Prelude.{◌≡◌, ◌⊎◌, ◌↔◌, Bool, true, false, Option, none, some, List, [], ◌∷◌, arith}
use suzuran.Prelude.Error.{Error, empty_condition, no_operator, not_numeric}
use suzuran.Prelude.Result.{err}
use suzuran.Prelude.Text.{Text, is_space, trim, cut}
use suzuran.Workflow.Model.{Variables}
use suzuran.Workflow.Evaluator.{
  Float64, Op, ge, eq, ne, symbol, compare, resolve_operand, to_float, try_op, try_ops, operators,
  evaluate_trimmed, evaluate_condition,
}

abbrev pub IsConditionError : Error → Type 0
IsConditionError x = (x ≡ empty_condition) ⊎ (x ≡ no_operator) ⊎ (x ≡ not_numeric)

-- the operators that compare numbers only
abbrev pub is_order : Op → Bool
is_order eq = false
is_order ne = false
is_order _ = true

module _ (f : Float64) where
  -- A comparison fails exactly when its operator is an order and one of the operands is no number.
  pub compare_fails_iff :
      (l : Text) (op : Op) (r : Text) (vars : Variables f.Carrier)
      → (compare f l op r vars ≡ err not_numeric) ↔ (
          (is_order op ≡ true)
          × ((to_float f (resolve_operand f l vars) ≡ none)
              ⊎ (to_float f (resolve_operand f r vars) ≡ none)))
  unfolding compare
  compare_fails_iff l ge r vars = ground arith
  compare_fails_iff l _ r vars = ground arith

  compare_fails :
      (l : Text) (op : Op) (r : Text) (vars : Variables f.Carrier) (x : Error)
      → compare f l op r vars ≡ err x
      → IsConditionError x
  unfolding compare
  compare_fails l ge r vars x h = ground arith
  compare_fails l _ r vars x h = ground arith

  try_ops_fails :
      (ops : List Op) (t : Text) (vars : Variables f.Carrier) (x : Error)
      → try_ops f ops t vars ≡ err x
      → IsConditionError x
  try_ops_fails [] t vars x h = ground arith
  try_ops_fails (op ∷ ops) t vars x h = go (cut (symbol op) t) h (try_ops_fails ops t vars x)
    where
      go :
          (o : Option (Text × Text))
          → try_op f op o vars (try_ops f ops t vars) ≡ err x
          → (try_ops f ops t vars ≡ err x → IsConditionError x)
          → IsConditionError x
      go none q later = later q
      go (some ([], r)) q later = later q
      go (some (c ∷ l, r)) q later =
          compare_fails (trim is_space (c ∷ l)) op (trim is_space r) vars x q

  pub evaluate_condition_fails :
      (t : Text) (vars : Variables f.Carrier) (x : Error)
      → evaluate_condition f t vars ≡ err x
      → IsConditionError x
  unfolding evaluate_condition
  evaluate_condition_fails t vars x h = go (trim is_space t) h
    where
      go : (u : Text) → evaluate_trimmed f u vars ≡ err x → IsConditionError x
      go [] q = ground arith
      go (c ∷ u) q = try_ops_fails (operators f) (c ∷ u) vars x q
