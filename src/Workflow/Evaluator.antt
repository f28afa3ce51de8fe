-- ===== src/Workflow/Evaluator.antt =====
-- backend/internal/service/workflow_evaluator.go: the conditions "<var> <op> <value>". A text is the
-- list of its code points. The operations on float64 and its decimal forms are parameters.
pub mod Parse
pub mod Errors
use suzuran.Prelude.{
  ℕ, Bool, true, false, not, ◌&&◌, ◌||◌, Option, none, some, List, [], ◌∷◌, ◌==◌, if◌then◌else◌,
}
use suzuran.Prelude.Error.{Error, empty_condition, no_operator, not_numeric}
use suzuran.Prelude.Result.{Result, ok, err}
use suzuran.Prelude.Text.{Text, is_space, text_eq, trim, cut}
use suzuran.Workflow.Model.{Value, null, bool, number, text, compound, Variables}

-- float64: the tests `<`, `<=` and `==`, ParseFloat and the form that `%v` prints
pub record Float64 : Type 1 where
  pub Carrier : Type 0
  pub lt : Carrier → Carrier → Bool
  pub le : Carrier → Carrier → Bool
  pub eq : Carrier → Carrier → Bool
  pub parse : Text → Option Carrier
  pub print : Carrier → Text

pub data Op : Type 0 where
  ge le eq ne gt lt : Op

unfoldable pub symbol : Op → Text
symbol ge = b'>' ∷ b'=' ∷ []
symbol le = b'<' ∷ b'=' ∷ []
symbol eq = b'=' ∷ b'=' ∷ []
symbol ne = b'!' ∷ b'=' ∷ []
symbol gt = b'>' ∷ []
symbol lt = b'<' ∷ []

abbrev pub is_quote : ℕ → Bool
is_quote c = c == b'"' || c == 39

module _ (f : Float64) where
  unfoldable pub lookup : Text → Variables f.Carrier → Option (Value f.Carrier)
  lookup k [] = none
  lookup k ((j, v) ∷ vars) = if text_eq j k then some v else lookup k vars

  abbrev or_text : Text → Option (Value f.Carrier) → Value f.Carrier
  or_text token none = text token
  or_text token (some v) = v

  -- A literal stays the text that it is, whether it parses as a number or not.
  unfoldable pub resolve_operand : Text → Variables f.Carrier → Value f.Carrier
  resolve_operand token vars = let t = trim is_quote token in or_text t (lookup t vars)

  unfoldable pub to_float : Value f.Carrier → Option f.Carrier
  to_float (number x) = some x
  to_float (text t) = f.parse t
  to_float _ = none

  -- fmt.Sprintf("%v", v)
  unfoldable pub sprint : Value f.Carrier → Text
  sprint null = b'<' ∷ b'n' ∷ b'i' ∷ b'l' ∷ b'>' ∷ []
  sprint (bool true) = b't' ∷ b'r' ∷ b'u' ∷ b'e' ∷ []
  sprint (bool false) = b'f' ∷ b'a' ∷ b'l' ∷ b's' ∷ b'e' ∷ []
  sprint (number x) = f.print x
  sprint (text t) = t
  sprint (compound t) = t

  abbrev compare_numbers : Op → f.Carrier → f.Carrier → Bool
  compare_numbers gt a b = f.lt b a
  compare_numbers lt a b = f.lt a b
  compare_numbers ge a b = f.le b a
  compare_numbers le a b = f.le a b
  compare_numbers eq a b = f.eq a b
  compare_numbers ne a b = not (f.eq a b)

  abbrev compare_texts : Op → Text → Text → Result Bool
  compare_texts eq a b = ok (text_eq a b)
  compare_texts ne a b = ok (not (text_eq a b))
  compare_texts _ a b = err not_numeric

  abbrev compare_values :
      Op → Option f.Carrier → Option f.Carrier → Value f.Carrier → Value f.Carrier → Result Bool
  compare_values op (some a) (some b) l r = ok (compare_numbers op a b)
  compare_values op _ _ l r = compare_texts op (sprint l) (sprint r)

  unfoldable pub compare : Text → Op → Text → Variables f.Carrier → Result Bool
  compare left op right vars =
      let l = resolve_operand left vars in
      let r = resolve_operand right vars in compare_values op (to_float l) (to_float r) l r

  abbrev pub try_op : Op → Option (Text × Text) → Variables f.Carrier → Result Bool → Result Bool
  try_op op none vars later = later
  try_op op (some ([], r)) vars later = later
  try_op op (some (c ∷ l, r)) vars later = compare (trim is_space (c ∷ l)) op (trim is_space r) vars

  abbrev pub try_ops : List Op → Text → Variables f.Carrier → Result Bool
  try_ops [] expr vars = err no_operator
  try_ops (op ∷ ops) expr vars = try_op op (cut (symbol op) expr) vars (try_ops ops expr vars)

  abbrev pub operators : List Op
  operators = ge ∷ le ∷ eq ∷ ne ∷ gt ∷ lt ∷ []

  abbrev pub evaluate_trimmed : Text → Variables f.Carrier → Result Bool
  evaluate_trimmed [] vars = err empty_condition
  evaluate_trimmed (c ∷ expr) vars = try_ops operators (c ∷ expr) vars

  unfoldable pub evaluate_condition : Text → Variables f.Carrier → Result Bool
  evaluate_condition expr vars = evaluate_trimmed (trim is_space expr) vars
