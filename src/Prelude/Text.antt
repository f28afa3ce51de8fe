-- ===== src/Prelude/Text.antt =====
-- Texts as lists of code points, or of bytes, and what the source uses of Go's `strings`.
use Prim.Native.Nat.{ℕ}
use mathlib.Core.Bool.{Bool, true, false, ◌&&◌, ◌||◌}
use mathlib.Core.Option.{Option, none, some}
use mathlib.Core.List.{List, [], ◌∷◌, reverse}
use suzuran.Prelude.Tests.{◌==◌, leb, if◌then◌else◌}

abbrev pub Text : Type 0
Text = List ℕ

-- unicode.IsSpace
unfoldable pub is_space : ℕ → Bool
is_space c =
    (leb 9 c && leb c 13)
    || c == 32
    || c == 0x85
    || c == 0xa0
    || c == 0x1680
    || (leb 0x2000 c && leb c 0x200a)
    || c == 0x2028
    || c == 0x2029
    || c == 0x202f
    || c == 0x205f
    || c == 0x3000

abbrev pub text_eq : Text → Text → Bool
text_eq [] [] = true
text_eq (a ∷ s) (b ∷ t) = a == b && text_eq s t
text_eq _ _ = false

abbrev pub trim_left : (ℕ → Bool) → Text → Text
trim_left p [] = []
trim_left p (c ∷ t) = if p c then trim_left p t else c ∷ t

-- strings.TrimFunc
unfoldable pub trim : (ℕ → Bool) → Text → Text
trim p t = reverse (trim_left p (reverse (trim_left p t)))

-- what follows the prefix, if the text has it
abbrev pub strip_prefix : Text → Text → Option Text
strip_prefix [] t = some t
strip_prefix (p ∷ ps) [] = none
strip_prefix (p ∷ ps) (c ∷ t) = if p == c then strip_prefix ps t else none

abbrev pub before : ℕ → Option (Text × Text) → Option (Text × Text)
before c none = none
before c (some (l, r)) = some (c ∷ l, r)

abbrev pub cut_here : Option Text → Option (Text × Text) → Option (Text × Text)
cut_here none later = later
cut_here (some r) later = some ([], r)

-- The text before the first `sep` and the text after it: `strings.Index` and the two slices.
unfoldable pub cut : Text → Text → Option (Text × Text)
cut sep [] = none
cut sep (c ∷ t) = cut_here (strip_prefix sep (c ∷ t)) (before c (cut sep t))

abbrev pub is_found : Option Text → Bool
is_found none = false
is_found (some t) = true

-- strings.HasPrefix
abbrev pub has_prefix : Text → Text → Bool
has_prefix t p = is_found (strip_prefix p t)
