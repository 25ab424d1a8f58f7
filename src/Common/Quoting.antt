-- ===== src/Common/Quoting.antt =====
-- Quoting by doubling, as CSV fields and SQL literals do it, and the reader of such a text.
use property_management_lead.Common.{
  ℕ, ◌≡◌, refl, Bool, true, false, Option, none, some, [], ◌∷◌, ◌++◌, Text, eqb, starts_with,
  if◌then◌else◌, arith,
}

-- `s.replace(q, q + q)`
unfoldable pub double : ℕ → Text → Text
double q [] = []
double q (c ∷ s) = let rest = double q s in if eqb c q then q ∷ q ∷ rest else c ∷ rest

abbrev cons_read : ℕ → Option (Text × Text) → Option (Text × Text)
cons_read c none = none
cons_read c (some (s, rest)) = some (c ∷ s, rest)

-- What stands before the closing quote, and what follows that. The flag is set after a quote that
-- either closes or is the first of two.
unfoldable pub read_quoted : ℕ → Bool → Text → Option (Text × Text)
read_quoted q false [] = none
read_quoted q false (c ∷ s) = elim (eqb c q) [
  | true ↦ read_quoted q true s
  | false ↦ cons_read c (read_quoted q false s)
]
read_quoted q true [] = some ([], [])
read_quoted q true (c ∷ s) = elim (eqb c q) [
  | true ↦ cons_read q (read_quoted q false s)
  | false ↦ some ([], c ∷ s)
]

read_quoted_close :
    (q : ℕ) (rest : Text)
    → starts_with rest (q ∷ []) ≡ false
    → read_quoted q true rest ≡ some ([], rest)
unfolding read_quoted starts_with
read_quoted_close q [] h = refl
read_quoted_close q (c ∷ rest) h = ground arith

-- Reading a doubled text up to its closing quote gives the text back, whatever it holds.
pub read_quoted-double :
    (q : ℕ) (s rest : Text)
    → starts_with rest (q ∷ []) ≡ false
    → read_quoted q false (double q s ++ q ∷ rest) ≡ some (s, rest)
unfolding read_quoted double
read_quoted-double q [] rest h = ground (arith, read_quoted_close q rest h)
read_quoted-double q (c ∷ s) rest h = ground (arith, read_quoted-double q s rest h)

pub double-append : (q : ℕ) (s t : Text) → double q (s ++ t) ≡ double q s ++ double q t
unfolding double
double-append q [] t = refl
double-append q (c ∷ s) t = ground (arith, double-append q s t)
