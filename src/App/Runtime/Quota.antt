-- ===== src/App/Runtime/Quota.antt =====
-- backend/internal/runtime/resource_quota.go. A text is the list of its bytes, and float64 is a
-- parameter.
use suzuran.Prelude.{
  ℕ, zero, suc, ◌+◌, ◌*◌, ◌/◌, ◌^◌, ◌≤◌, ◌<◌, ◌≡◌, ◌↔◌, Bool, ◌&&◌, ◌||◌, Option, none, some,
  String, List, [], ◌∷◌, length, map, ltb, leb, ◌==◌, if◌then◌else◌, arith,
}
use suzuran.Prelude.Int.{ℤ, pos}
use suzuran.Prelude.Text.{Text, text_eq, is_space, trim}
use suzuran.App.Store.{Quantity}

-- the first characters as long as they are digits or points, and the rest
abbrev is_numeric : ℕ → Bool
is_numeric c = (leb b'0' c && leb c b'9') || c == b'.'

abbrev pub number_part : Text → Text
number_part [] = []
number_part (c ∷ t) = let rest = number_part t in if is_numeric c then c ∷ rest else []

abbrev pub unit_part : Text → Text
unit_part [] = []
unit_part (c ∷ t) = let rest = unit_part t in if is_numeric c then rest else c ∷ t

-- strings.ToLower of ASCII letters
abbrev pub lower : Text → Text
lower = map (λ c. if leb b'A' c && leb c b'Z' then c + 32 else c)

module _ (q : Quantity) where
  abbrev or_zero : Option q.Carrier → (q.Carrier → ℤ) → ℤ
  or_zero none f = pos 0
  or_zero (some x) f = f x

  unfoldable pub parse_cpu_quota : Text → ℤ
  parse_cpu_quota quota =
      if text_eq quota []
      then pos 0
      else or_zero (q.parse quota) (λ x. q.truncate (q.times x 1000000000))

  -- the products, from left to right
  unfoldable pub in_unit : Text → q.Carrier → ℤ
  in_unit unit x =
      if text_eq unit [] || text_eq unit (b'b' ∷ [])
      then q.truncate x
      else if text_eq unit (b'k' ∷ []) || text_eq unit (b'k' ∷ b'b' ∷ [])
      then q.truncate (q.times x 1000)
      else if text_eq unit (b'k' ∷ b'i' ∷ [])
      then q.truncate (q.times x 1024)
      else if text_eq unit (b'm' ∷ []) || text_eq unit (b'm' ∷ b'b' ∷ [])
      then q.truncate (q.times (q.times x 1000) 1000)
      else if text_eq unit (b'm' ∷ b'i' ∷ [])
      then q.truncate (q.times (q.times x 1024) 1024)
      else if text_eq unit (b'g' ∷ []) || text_eq unit (b'g' ∷ b'b' ∷ [])
      then q.truncate (q.times (q.times (q.times x 1000) 1000) 1000)
      else if text_eq unit (b'g' ∷ b'i' ∷ [])
      then q.truncate (q.times (q.times (q.times x 1024) 1024) 1024)
      else pos 0

  unfoldable pub parse_memory_quota : Text → ℤ
  parse_memory_quota quota =
      let t = trim is_space quota in
      if text_eq quota [] || ltb (length t) 2
      then pos 0
      else or_zero (q.parse (number_part t)) (in_unit (lower (unit_part t)))

-- What FormatMemory prints: "0", the bytes with a B, or the quotient of the bytes and a divisor
-- with a suffix.
pub data Amount : Type 0 where
  nothing : Amount
  plain : ℕ → Amount
  scaled : ℕ → ℕ → String → Amount

abbrev pub suffixes : List String
suffixes = "Ki" ∷ "Mi" ∷ "Gi" ∷ "Ti" ∷ []

abbrev suffix_at : ℕ → List String → Option String
suffix_at n [] = none
suffix_at zero (s ∷ t) = some s
suffix_at (suc n) (s ∷ t) = suffix_at n t

-- the loop: the divisor and the place of the suffix; the fuel is enough for 64 bits
abbrev pub scale : ℕ → ℕ → ℕ → ℕ → ℕ × ℕ
scale zero n div exp = (div, exp)
scale (suc fuel) n div exp =
    let later = scale fuel (n / 1024) (div * 1024) (suc exp) in
    if leb 1024 n then later else (div, exp)

-- `none` is the panic of an index that is out of range.
abbrev suffixed : ℕ → ℕ → Option String → Option Amount
suffixed bytes div none = none
suffixed bytes div (some s) = some (scaled bytes div s)

unfoldable pub format_memory : ℕ → Option Amount
format_memory bytes =
    if bytes == 0
    then some nothing
    else if ltb bytes 1024
    then some (plain bytes)
    else let (div, exp) = scale 6 (bytes / 1024) 1024 0 in
      suffixed bytes div (suffix_at exp suffixes)

-- FormatMemory panics exactly from 1024^5 bytes on, where its list of suffixes ends.
pub format_memory_panics :
    (bytes : ℕ) → bytes < 2 ^ 63 → (format_memory bytes ≡ none) ↔ (1024 ^ 5 ≤ bytes)
unfolding format_memory
format_memory_panics bytes h = (ground arith, ground arith)
