-- ===== src/Entity/Patterns.antt =====
-- The regular expressions of src/agents/entity_unmasking.py: `\b`, characters, optional characters,
-- `\b`.
use property_management_lead.Common.{
  ℕ, ◌≡◌, refl, sym, ◌∙◌, Bool, true, false, not, ◌&&◌, ◌||◌, if◌then◌else◌, Option, none, some,
  List, [], ◌∷◌, ◌++◌, map, Text, eqb, arith,
}

pub data Item : Type 0 where
  one optional : ℕ → Item

abbrev pub Pattern : Type 0
Pattern = List Item

-- A text that is matched literally.
abbrev pub literal : Text → Pattern
literal = map one

module _ (is_word : ℕ → Bool) where
  word_before : Option ℕ → Bool
  word_before none = false
  word_before (some c) = is_word c

  word_after : Text → Bool
  word_after [] = false
  word_after (c ∷ s) = is_word c

  -- `\b` between the character before and the text after
  unfoldable pub boundary : Option ℕ → Text → Bool
  unfolding word_before word_after
  boundary before s = let after = word_after s in if word_before before then not after else after

  -- What is compared with a character of the pattern: with `re.IGNORECASE` the other case too.
  module _ (same : ℕ → ℕ → Bool) where
    -- A match that starts here, up to its closing `\b`.
    unfoldable pub matches : Pattern → Option ℕ → Text → Bool
    unfolding boundary
    matches [] before s = boundary before s
    matches (one c ∷ pattern) before [] = false
    matches (one c ∷ pattern) before (d ∷ s) = same c d && matches pattern (some d) s
    matches (optional c ∷ pattern) before [] = matches pattern before []
    matches (optional c ∷ pattern) before (d ∷ s) =
        (same c d && matches pattern (some d) s) || matches pattern before (d ∷ s)

    -- `pattern.search(…)`: a match that starts here or later.
    unfoldable pub search : Pattern → Option ℕ → Text → Bool
    unfolding matches boundary
    search pattern before [] = boundary before [] && matches pattern before []
    search pattern before (d ∷ s) =
        (boundary before (d ∷ s) && matches pattern before (d ∷ s)) || search pattern (some d) s

    -- A match of a pattern with an optional character more.
    pub matches-optional :
        (pattern : Pattern) (c : ℕ) (before : Option ℕ) (s : Text)
        → matches pattern before s ≡ true
        → matches (pattern ++ optional c ∷ []) before s ≡ true
    unfolding matches
    matches-optional [] c before [] h = h
    matches-optional [] c before (d ∷ s) h = ground arith
    matches-optional (one e ∷ pattern) c before [] h = cc
    matches-optional (one e ∷ pattern) c before (d ∷ s) h =
        ground (arith, matches-optional pattern c (some d) s)
    matches-optional (optional e ∷ pattern) c before [] h = matches-optional pattern c before [] h
    matches-optional (optional e ∷ pattern) c before (d ∷ s) h =
        ground
          (arith, matches-optional pattern c (some d) s, matches-optional pattern c before (d ∷ s))

    -- Where one pattern's matches are another's, so is what a search finds.
    pub search_mono :
        (p q : Pattern)
        → ((before : Option ℕ) (s : Text) → matches p before s ≡ true → matches q before s ≡ true)
        → (before : Option ℕ) (s : Text) → search p before s ≡ true
        → search q before s ≡ true
    unfolding search
    search_mono p q h before [] found = ground (arith, h before [])
    search_mono p q h before (d ∷ s) found =
        ground (arith, h before (d ∷ s), search_mono p q h (some d) s)

abbrev pub map_option : (ℕ → ℕ) → Option ℕ → Option ℕ
map_option f none = none
map_option f (some c) = some (f c)

-- A map of characters that keeps word characters, like the upper case, and a comparison that sees
-- through it, like `re.IGNORECASE`.
module _ (is_word : ℕ → Bool) (same : ℕ → ℕ → Bool) (up : ℕ → ℕ)
    (up_word : (c : ℕ) → is_word (up c) ≡ is_word c)
    (up_same : (c d : ℕ) → eqb c (up d) ≡ true → same c d ≡ true) where
  boundary-map :
      (before : Option ℕ) (s : Text)
      → boundary is_word (map_option up before) (map up s) ≡ boundary is_word before s
  unfolding boundary
  boundary-map none [] = refl
  boundary-map none (d ∷ s) = up_word d
  boundary-map (some c) [] = rw (up_word c) refl
  boundary-map (some c) (d ∷ s) = rw (up_word c, up_word d) refl

  matches-map :
      (pattern : Pattern) (before : Option ℕ) (s : Text)
      → matches is_word eqb pattern (map_option up before) (map up s) ≡ true
      → matches is_word same pattern before s ≡ true
  unfolding matches
  matches-map [] before s h = sym (boundary-map before s) ∙ h
  matches-map (one c ∷ pattern) before [] h = cc
  matches-map (one c ∷ pattern) before (d ∷ s) h =
      ground (arith, up_same c d, matches-map pattern (some d) s)
  matches-map (optional c ∷ pattern) before [] h = matches-map pattern before [] h
  matches-map (optional c ∷ pattern) before (d ∷ s) h =
      ground
        (arith, up_same c d, matches-map pattern (some d) s, matches-map pattern before (d ∷ s))

  -- What is found exactly in the mapped text is found in the text.
  pub search-map :
      (pattern : Pattern) (before : Option ℕ) (s : Text)
      → search is_word eqb pattern (map_option up before) (map up s) ≡ true
      → search is_word same pattern before s ≡ true
  unfolding search
  search-map pattern before [] h =
      ground (arith, boundary-map before [], matches-map pattern before [])
  search-map pattern before (d ∷ s) h = ground (
    arith,
    boundary-map before (d ∷ s),
    matches-map pattern before (d ∷ s),
    search-map pattern (some d) s,
  )
