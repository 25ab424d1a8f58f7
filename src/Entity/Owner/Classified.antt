-- ===== src/Entity/Owner/Classified.antt =====
-- How `classify_entity_type` and `is_entity` of src/agents/entity_unmasking.py agree.
use property_management_lead.Common.{
  ℕ, ◌≡◌, ◌≢◌, refl, Bool, true, false, Option, none, some, List, [], ◌∷◌, ◌++◌, map, any, Text,
  codes, eqb, Unicode, arith, subst, eqb_iff,
}
use property_management_lead.Entity.Patterns.{
  one, optional, Pattern, literal, boundary, matches, search, search_mono, search-map,
  matches-optional,
}
use property_management_lead.Entity.Owner.{
  entity_indicators, is_entity, found, classify_entity_type,
}

module _ (is_word : ℕ → Bool) (a b : ℕ) (a_word : is_word a ≡ true)
    (b_word : is_word b ≡ false) where
  boundary_between :
      (c d : ℕ) (s : Text)
      → eqb a c ≡ true
      → eqb b d ≡ true
      → boundary is_word (some c) (d ∷ s) ≡ true
  unfolding boundary
  boundary_between c d s h h' =
      let c_word : is_word c ≡ true = subst (λ x. is_word x ≡ true) ((eqb_iff a c).0 h) a_word in
      let d_word : is_word d ≡ false = subst (λ x. is_word x ≡ false) ((eqb_iff b d).0 h') b_word in
      rw (c_word, d_word) refl

  -- A pattern's first words, up to a character at which a word ends, match where it does.
  matches-word :
      (p q : Pattern) (before : Option ℕ) (s : Text)
      → matches is_word eqb (p ++ one a ∷ one b ∷ q) before s ≡ true
      → matches is_word eqb (p ++ one a ∷ []) before s ≡ true
  unfolding matches
  matches-word [] q before [] h = cc
  matches-word [] q before (c ∷ []) h = ground arith
  matches-word [] q before (c ∷ (d ∷ s)) h = ground (arith, boundary_between c d s)
  matches-word (one e ∷ p) q before [] h = cc
  matches-word (one e ∷ p) q before (c ∷ s) h = ground (arith, matches-word p q (some c) s)
  matches-word (optional e ∷ p) q before [] h = matches-word p q before [] h
  matches-word (optional e ∷ p) q before (c ∷ s) h =
      ground (arith, matches-word p q (some c) s, matches-word p q before (c ∷ s))

module _ (unicode : Unicode) where
  Found : Pattern → Text → Type 0
  Found pattern s = search unicode.is_word eqb pattern none s ≡ true

  optional_last : (p : Pattern) (c : ℕ) (s : Text) → Found p s → Found (p ++ optional c ∷ []) s
  unfolding Found
  optional_last p c s =
      search_mono unicode.is_word eqb p (p ++ optional c ∷ [])
        (matches-optional unicode.is_word eqb p c) none s

  first_word :
      unicode.is_word b'D' ≡ true
      → unicode.is_word b' ' ≡ false
      → (s : Text) → Found (literal (codes "LIMITED PARTNERSHIP")) s
      → Found (literal (codes "LIMITED")) s
  unfolding Found
  first_word d_word no_word s =
      search_mono unicode.is_word eqb _ _
        (matches-word unicode.is_word b'D' b' ' d_word no_word (literal (codes "LIMITE"))
          (literal (codes "PARTNERSHIP")))
        none s

  -- What the classification looks for is among the indicators.
  found-indicators :
      unicode.is_word b'D' ≡ true
      → unicode.is_word b' ' ≡ false
      → (owner : Text) → classify_entity_type unicode owner ≢ codes "individual"
      → found unicode entity_indicators (unicode.upper owner) ≡ true
  unfolding classify_entity_type found any Found
  found-indicators d_word no_word owner h =
      let s = unicode.upper owner in
      ground (
        arith,
        h,
        optional_last (literal (codes "INC")) b'.' s,
        optional_last (literal (codes "CORP")) b'.' s,
        first_word d_word no_word s,
      )

  any_mono :
      (p q : Pattern → Bool)
      → ((pattern : Pattern) → p pattern ≡ true → q pattern ≡ true)
      → (patterns : List Pattern) → any p patterns ≡ true
      → any q patterns ≡ true
  unfolding any
  any_mono p q h [] e = cc
  any_mono p q h (pattern ∷ patterns) e = ground (arith, h pattern, any_mono p q h patterns)

  -- An owner that is classified as anything but an individual is found to be an entity: where the
  -- owner's upper case is taken character by character and keeps word characters, the comparison of
  -- `re.IGNORECASE` sees through it, and `D` is a word character and a space is none.
  pub is_entity-classify_entity_type :
      (same : ℕ → ℕ → Bool) (up : ℕ → ℕ)
      → ((c : ℕ) → unicode.is_word (up c) ≡ unicode.is_word c)
      → ((c d : ℕ) → eqb c (up d) ≡ true → same c d ≡ true)
      → unicode.is_word b'D' ≡ true
      → unicode.is_word b' ' ≡ false
      → (recorded_owner : Text) → unicode.upper recorded_owner ≡ map up recorded_owner
      → classify_entity_type unicode recorded_owner ≢ codes "individual"
      → is_entity unicode same recorded_owner ≡ true
  unfolding is_entity found
  is_entity-classify_entity_type same up up_word up_same d_word no_word owner upper h =
      any_mono (λ pattern. search unicode.is_word eqb pattern none (map up owner))
        (λ pattern. search unicode.is_word same pattern none owner)
        (λ pattern. search-map unicode.is_word same up up_word up_same pattern none owner)
        entity_indicators
        (subst (λ (s : Text). found unicode entity_indicators s ≡ true) upper
          (found-indicators d_word no_word owner h))
