-- ===== src/Data/Quoting.antt =====
-- pgQuote of backend/internal/repository/data_repository.go against the way in which PostgreSQL
-- reads a quoted identifier.
use mathlib.Core.List.{append_assoc}
use suzuran.Prelude.{
  ℕ, ◌≡◌, ◌≢◌, refl, inl, inr, Bool, true, false, Option, none, some, [], ◌∷◌, ◌++◌, ◌==◌, not,
  ◌&&◌, leb, length, Bool-cases, if◌then◌else◌, arith, ap, sym, ◌∙◌, ==_iff,
}
use suzuran.Prelude.Text.{Text}
use suzuran.Data.Statements.{doubled, pg_quote}

abbrev put : ℕ → Option (Text × Text) → Option (Text × Text)
put c none = none
put c (some (name, rest)) = some (c ∷ name, rest)

-- After the opening quote: two quotes are one character of the name, one quote ends it. `pending`
-- says that the last character was a quote.
abbrev pub scan : Bool → Text → Option (Text × Text)
scan true [] = some ([], [])
scan false [] = none
scan true (c ∷ t) = if c == b'"' then put c (scan false t) else some ([], c ∷ t)
scan false (c ∷ t) = if c == b'"' then scan true t else put c (scan false t)

abbrev no_nul : Text → Bool
no_nul [] = true
no_nul (c ∷ t) = not (c == 0) && no_nul t

-- PostgreSQL refuses an empty identifier and a NUL, and cuts a name off after 63 bytes.
abbrev pub is_name : Text → Bool
is_name name = not (length name == 0) && no_nul name && leb (length name) 63

abbrev named : Option (Text × Text) → Option (Text × Text)
named none = none
named (some (name, rest)) = if is_name name then some (name, rest) else none

-- The identifier at the start of a text, and what follows it; there is none that PostgreSQL refuses
-- or cuts off.
abbrev pub read_identifier : Text → Option (Text × Text)
read_identifier [] = none
read_identifier (c ∷ t) = if c == b'"' then named (scan false t) else none

abbrev pub Unquoted : Text → Type 0
Unquoted [] = Unit
Unquoted (c ∷ t) = c ≢ b'"'

scan-doubled :
    (name rest : Text)
    → Unquoted rest
    → scan false (doubled name ++ b'"' ∷ rest) ≡ some (name, rest)
scan-doubled [] [] h = refl
scan-doubled [] (c ∷ rest) h = ground (arith, h)
scan-doubled (c ∷ name) rest h = elim (Bool-cases (c == b'"')) [
  | inl q ↦
      let same : c ≡ b'"' = (==_iff c b'"').0 q in
      rw q (ap (put b'"') (scan-doubled name rest h) ∙ ap (λ x. some (x ∷ name, rest)) (sym same))
  | inr q ↦ rw (q, q) (ap (put c) (scan-doubled name rest h))
]

-- PostgreSQL reads a name that pgQuote quotes as one identifier, which is this name, quotes included,
-- provided that it has 1 to 63 bytes and no NUL, and no quote follows; any other name it refuses or
-- cuts off.
pub read_identifier-pg_quote :
    (name rest : Text)
    → Unquoted rest
    → read_identifier (pg_quote name ++ rest) ≡ (if is_name name then some (name, rest) else none)
unfolding pg_quote
read_identifier-pg_quote name rest h =
    rw (append_assoc (doubled name) (b'"' ∷ []) rest) (ap named (scan-doubled name rest h))
