-- ===== src/Discovery/Address.antt =====
-- Absentee detection of src/agents/discovery.py.
use property_management_lead.Common.{
  ℕ, ◌≡◌, refl, ap, Bool, false, not, ◌||◌, Option, none, some, [], ◌∷◌, ◌++◌, Text, text_eq,
  Unicode, strip, keep, is_empty, ◌==◌, keep-skip, if◌then◌else◌, arith,
}

-- `re.sub(r"\s+", " ", s)`; the flag is set behind a white space.
unfoldable pub collapse : (ℕ → Bool) → Bool → Text → Text
collapse is_space behind [] = []
collapse is_space behind (c ∷ s) =
    let rest = collapse is_space (is_space c) s in
    if is_space c then (if behind then rest else b' ' ∷ rest) else c ∷ rest

is_empty-insert :
    (before punctuation after : Text)
    → is_empty (before ++ after) ≡ false
    → is_empty (before ++ (punctuation ++ after)) ≡ false
is_empty-insert (c ∷ before) punctuation after h = refl
is_empty-insert [] [] after h = h
is_empty-insert [] (c ∷ punctuation) after h = refl

module _ (unicode : Unicode) where
  -- `[\w\s]`
  unfoldable pub addr_char : ℕ → Bool
  addr_char c = unicode.is_word c || unicode.is_space c

  unfoldable pub addr_key : Text → Text
  unfolding collapse addr_char
  addr_key address =
      strip unicode.is_space
        (collapse unicode.is_space false (unicode.lower (keep addr_char address)))

  unfoldable pub is_absentee_owner : Text → Option Text → Bool
  unfolding addr_key
  is_absentee_owner property_address none = false
  is_absentee_owner property_address (some mailing_address) =
      if is_empty mailing_address
      then false
      else not (addr_key property_address == addr_key mailing_address)

  addr_key-punctuation :
      (before punctuation after : Text)
      → keep addr_char punctuation ≡ []
      → addr_key (before ++ (punctuation ++ after)) ≡ addr_key (before ++ after)
  unfolding addr_key
  addr_key-punctuation before punctuation after h =
      ap
        (λ (kept : Text).
          strip unicode.is_space (collapse unicode.is_space false (unicode.lower kept)))
        (keep-skip addr_char before punctuation after h)

  -- Punctuation in a mailing address that is not empty without it makes no owner an absentee, nor
  -- the other way round.
  pub is_absentee_owner-punctuation :
      (property_address before punctuation after : Text)
      → keep addr_char punctuation ≡ []
      → is_empty (before ++ after) ≡ false
      → is_absentee_owner property_address (some (before ++ (punctuation ++ after)))
        ≡ is_absentee_owner property_address (some (before ++ after))
  unfolding is_absentee_owner
  is_absentee_owner-punctuation property_address before punctuation after h some_text = ground (
    arith,
    addr_key-punctuation before punctuation after h,
    is_empty-insert before punctuation after some_text,
  )
