-- ===== src/Llm/Factory/Active.antt =====
-- The row that src/llm/factory.py takes.
use property_management_lead.Common.{
  ℕ, ◌≡◌, refl, subst, true, false, Option, none, some, List, [], ◌∷◌, All, keep, Text, arith,
  Option-cases, Bool-cases, inl, inr, suc, get_elem?,
}
use property_management_lead.Common.Result.{ok}
use property_management_lead.Llm.Providers.{LlmProvider}
use property_management_lead.Llm.Factory.{
  LlmSettings, text_less, less, first_by_provider, client_of, get_active_llm_client,
}

text_less_irrefl : (s : Text) → text_less s s ≡ false
unfolding text_less
text_less_irrefl [] = refl
text_less_irrefl (c ∷ s) = ground (arith, text_less_irrefl s)

text_less_asymm : (s t : Text) → text_less s t ≡ true → text_less t s ≡ false
unfolding text_less
text_less_asymm [] (d ∷ t) h = refl
text_less_asymm s [] h = cc
text_less_asymm (c ∷ s) (d ∷ t) h = ground (arith, text_less_asymm s t)

text_less-not_trans :
    (r s t : Text) → text_less s r ≡ false → text_less t s ≡ false → text_less t r ≡ false
unfolding text_less
text_less-not_trans [] s t h h' = refl
text_less-not_trans (b ∷ r) [] t h h' = cc
text_less-not_trans (b ∷ r) (c ∷ s) [] h h' = cc
text_less-not_trans (b ∷ r) (c ∷ s) (d ∷ t) h h' = ground (arith, text_less-not_trans r s t)

less-not_trans : (r s t : Option Text) → less s r ≡ false → less t s ≡ false → less t r ≡ false
unfolding less
less-not_trans none s t h h' = refl
less-not_trans (some r) none t h h' = cc
less-not_trans (some r) (some s) none h h' = cc
less-not_trans (some r) (some s) (some t) h h' = text_less-not_trans r s t h h'

less_asymm : (s t : Option Text) → less s t ≡ true → less t s ≡ false
unfolding less
less_asymm s none h = cc
less_asymm none (some t) h = refl
less_asymm (some s) (some t) h = text_less_asymm s t h

less_irrefl : (s : Option Text) → less s s ≡ false
unfolding less
less_irrefl none = refl
less_irrefl (some s) = text_less_irrefl s

-- No row comes before this one.
abbrev pub Leads : Option Text → List LlmSettings → Type 0
Leads provider rows = All (λ (row : LlmSettings). less row.provider provider ≡ false) rows

Leads-trans :
    (p q : Option Text) (rows : List LlmSettings) → less q p ≡ false → Leads q rows → Leads p rows
Leads-trans p q [] h all = tt
Leads-trans p q (row ∷ rows) h (here, there) =
    (less-not_trans p q row.provider h here, Leads-trans p q rows h there)

abbrev pub Among : LlmSettings → List LlmSettings → Type 0
Among row rows = (i : ℕ) × (get_elem? rows i ≡ some row)

Among-more : (row r : LlmSettings) (rows : List LlmSettings) → Among row rows → Among row (r ∷ rows)
Among-more row r rows (i, e) = (suc i, e)

-- A row of the table that no other comes before.
abbrev pub IsFirst : LlmSettings → List LlmSettings → Type 0
IsFirst row rows = Among row rows × Leads row.provider rows

first_by_provider-none : (rows : List LlmSettings) → first_by_provider rows ≡ none → rows ≡ []
unfolding first_by_provider
first_by_provider-none [] e = refl
first_by_provider-none (r ∷ rows) e = ground arith

first_by_provider-IsFirst :
    (rows : List LlmSettings) {row : LlmSettings}
    → first_by_provider rows ≡ some row
    → IsFirst row rows
unfolding first_by_provider
first_by_provider-IsFirst [] e = cc
first_by_provider-IsFirst (r ∷ rows) {row} e = elim (Option-cases (first_by_provider rows)) [
  | inl e' ↦
      let same : r ≡ row = ground arith in
      let alone : Leads r.provider rows = rw (first_by_provider-none rows e') tt in
      subst (λ (x : LlmSettings). IsFirst x (r ∷ rows)) same
        ((0, refl), (less_irrefl r.provider, alone))
  | inr (best, e') ↦
      let (found, there) = first_by_provider-IsFirst rows e' in
      elim (Bool-cases (less best.provider r.provider)) [
        | inl before ↦
            let same : best ≡ row = ground arith in
            subst (λ (x : LlmSettings). IsFirst x (r ∷ rows)) same
              (Among-more best r rows found, (less_asymm best.provider r.provider before, there))
        | inr after ↦
            let same : r ≡ row = ground arith in
            subst (λ (x : LlmSettings). IsFirst x (r ∷ rows)) same
              (
                (0, refl),
                (less_irrefl r.provider, Leads-trans r.provider best.provider rows after there),
              )
      ]
]

-- A client that is returned is made of an active row, and no active row has a provider that comes
-- before this one's.
pub get_active_llm_client-IsFirst :
    (table : List LlmSettings) {client : LlmProvider}
    → get_active_llm_client table ≡ ok client
    → (row : LlmSettings) × IsFirst row (keep (λ r. r.is_active) table)
      × (client_of row ≡ ok client)
unfolding get_active_llm_client
get_active_llm_client-IsFirst table e =
    elim (Option-cases (first_by_provider (keep (λ r. r.is_active) table))) [
      | inl e' ↦ absurd (ground arith)
      | inr (row, e') ↦ (row, first_by_provider-IsFirst _ e', ground arith)
    ]
