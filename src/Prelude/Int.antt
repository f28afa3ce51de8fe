-- ===== src/Prelude/Int.antt =====
-- Go's `int` where a value may be negative, and strconv.Atoi.
use suzuran.Prelude.Tests.{◌==◌, leb, ltb, if◌then◌else◌}
use Prim.Native.Nat.{ℕ, ◌+◌, ◌-◌, ◌*◌, ◌^◌}
use mathlib.Core.Bool.{Bool, false, ◌&&◌}
use mathlib.Core.Option.{Option, none, some}
use mathlib.Core.List.{List, [], ◌∷◌}

-- `negsuc n` is -(n + 1).
pub data ℤ : Type 0 where
  pos : ℕ → ℤ
  negsuc : ℕ → ℤ

-- The `int` that 64 bits, read as a natural number, stand for.
abbrev pub int64_of : ℕ → ℤ
int64_of x = if ltb x (2 ^ 63) then pos x else negsuc (2 ^ 64 - 1 - x)

-- The `int` of these bits where the code treats a negative one like 0.
abbrev pub at_least_zero : ℕ → ℕ
at_least_zero x = if ltb x (2 ^ 63) then x else 0

abbrev pub int_eq : ℤ → ℤ → Bool
int_eq (pos a) (pos b) = a == b
int_eq (negsuc a) (negsuc b) = a == b
int_eq _ _ = false

abbrev digits : ℕ → List ℕ → Option ℕ
digits n [] = some n
digits n (c ∷ t) =
    let rest = digits (n * 10 + (c - b'0')) t in if leb b'0' c && leb c b'9' then rest else none

abbrev number : List ℕ → Option ℕ
number [] = none
number (c ∷ t) = digits 0 (c ∷ t)

abbrev below : ℕ → Option ℕ → Option ℤ
below bound none = none
below bound (some n) = if leb n bound then some (pos n) else none

-- -0 is 0
abbrev negative : Option ℕ → Option ℤ
negative none = none
negative (some n) =
    if n == 0 then some (pos 0) else if leb n (2 ^ 63) then some (negsuc (n - 1)) else none

-- An optional sign and decimal digits, within 64 bits.
unfoldable pub atoi : List ℕ → Option ℤ
atoi [] = none
atoi (c ∷ t) =
    if c == b'-'
    then negative (number t)
    else if c == b'+'
    then below (2 ^ 63 - 1) (number t)
    else below (2 ^ 63 - 1) (number (c ∷ t))
