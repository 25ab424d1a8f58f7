-- ===== src/Common/Texts.antt =====
-- Texts as lists of code points, with the string methods that the program calls. What depends on
-- the Unicode tables (character classes and case) is a parameter of its users.
use Prim.Native.Nat.{ℕ}
use Prim.Native.Char.{code}
use Prim.Native.String.{String}
use mathlib.Core.Path.{◌≡◌, refl, ap, ◌∙◌}
use native.Mathlib.Omega.{arith}
use property_management_lead.Common.Lists.{all, all-append}
use mathlib.Core.Bool.{Bool, true, false, not, ◌&&◌, ◌||◌}
use mathlib.Core.List.{List, [], ◌∷◌, reverse, reverse-append, reverse-reverse}
use property_management_lead.Common.Tests.{eqb, if◌then◌else◌}

abbrev pub Text : Type 0
Text = List ℕ

-- A literal.
abbrev pub codes : String → Text
codes String.[] = []
codes (String.◌∷◌ c s) = code c ∷ codes s

-- `s.startswith(p)`
unfoldable pub starts_with : Text → Text → Bool
starts_with s [] = true
starts_with [] (p ∷ ps) = false
starts_with (c ∷ s) (p ∷ ps) = eqb c p && starts_with s ps

-- `p in s`, for texts
unfoldable pub has_infix : Text → Text → Bool
unfolding starts_with
has_infix [] p = starts_with [] p
has_infix (c ∷ s) p = starts_with (c ∷ s) p || has_infix s p

-- `s.endswith(p)`
unfoldable pub ends_with : Text → Text → Bool
unfolding starts_with
ends_with s p = starts_with (reverse s) (reverse p)

-- `not s`
abbrev pub is_empty : Text → Bool
is_empty [] = true
is_empty (c ∷ s) = false

-- The predicates of Python's Unicode database that `re` and `str` go by: `\d`, `\s` (also what
-- `strip` removes) and `\w`, and the case maps, which work on whole texts.
pub record Unicode : Type 0 where
  pub is_digit : ℕ → Bool
  pub is_space : ℕ → Bool
  pub is_word : ℕ → Bool
  pub lower : Text → Text
  pub upper : Text → Text

module _ (is_space : ℕ → Bool) where
  unfoldable pub strip_left : Text → Text
  strip_left [] = []
  strip_left (c ∷ s) = let rest = strip_left s in if is_space c then rest else c ∷ s

  -- `s.strip()`
  unfoldable pub strip : Text → Text
  unfolding strip_left
  strip s = reverse (strip_left (reverse (strip_left s)))

pub all-reverse : (p : ℕ → Bool) (s : Text) → all p (reverse s) ≡ all p s
unfolding all
all-reverse p [] = refl
all-reverse p (c ∷ s) =
    ap (all p) (reverse-append (c ∷ []) s)
    ∙ all-append p (reverse s) (c ∷ [])
    ∙ ground (arith, all-reverse p s)

all-strip_left :
    (is_space p : ℕ → Bool) (s : Text) → all p s ≡ true → all p (strip_left is_space s) ≡ true
unfolding strip_left all
all-strip_left is_space p [] h = refl
all-strip_left is_space p (c ∷ s) h = ground (arith, all-strip_left is_space p s)

-- `strip` only takes characters away.
pub all-strip :
    (is_space p : ℕ → Bool) (s : Text) → all p s ≡ true → all p (strip is_space s) ≡ true
unfolding strip
all-strip is_space p s h =
    all-reverse p _ ∙ all-strip_left is_space p _ (all-reverse p _ ∙ all-strip_left is_space p s h)

strip_left_none :
    (is_space : ℕ → Bool) (s : Text)
    → all (λ c. not (is_space c)) s ≡ true
    → strip_left is_space s ≡ s
unfolding strip_left all
strip_left_none is_space [] h = refl
strip_left_none is_space (c ∷ s) h = ground arith

-- A text without white space is its own `strip`.
pub strip_none :
    (is_space : ℕ → Bool) (s : Text) → all (λ c. not (is_space c)) s ≡ true → strip is_space s ≡ s
unfolding strip
strip_none is_space s h =
    ap (λ (t : Text). reverse (strip_left is_space (reverse t))) (strip_left_none is_space s h)
    ∙ ap reverse (strip_left_none is_space (reverse s) (all-reverse (λ c. not (is_space c)) s ∙ h))
    ∙ reverse-reverse s
