-- ===== src/Main/Handlers/Llm/Unique.antt =====
-- The rows of `llm_settings` under `INSERT OR REPLACE` in src/main.py.
use property_management_lead.Common.{
  ◌≡◌, refl, ◌∙◌, all-append, Bool-cases, inl, inr, Bool, true, false, not, ◌||◌, ◌&&◌, Option,
  none, some, List, [], ◌∷◌, ◌++◌, any, all, keep, Text, text_eq, eq_iff, arith,
}
use property_management_lead.Llm.Factory.{LlmSettings}
use property_management_lead.Main.Handlers.Llm.{is_provider, same_text, same_provider, replace_row}

-- No two rows have the same provider, which NULL never is.
abbrev pub Unique : List LlmSettings → Type 0
Unique [] = Unit
Unique (row ∷ rows) = (any (same_provider row.provider) rows ≡ false) × Unique rows

-- Every row passes the CHECK of the table, and its primary key holds.
pub record IsTable (rows : List LlmSettings) : Type 0 where
  pub checked : all (λ row. is_provider row.provider) rows ≡ true
  pub unique : Unique rows

same_text_symm : (s t : Option Text) → same_text s t ≡ same_text t s
unfolding same_text
same_text_symm none none = refl
same_text_symm none (some t) = refl
same_text_symm (some s) none = refl
same_text_symm (some s) (some t) = ground (arith, eq_iff s t, eq_iff t s)

any_nil : (p : LlmSettings → Bool) → any p [] ≡ false
unfolding any
any_nil p = refl

any-append :
    (p : LlmSettings → Bool) (rows : List LlmSettings) (row : LlmSettings)
    → any p (rows ++ row ∷ []) ≡ (any p rows || p row)
unfolding any
any-append p [] row = ground arith
any-append p (r ∷ rows) row = ground (arith, any-append p rows row)

any-keep :
    (p q : LlmSettings → Bool) (rows : List LlmSettings)
    → any p rows ≡ false
    → any p (keep q rows) ≡ false
unfolding any keep
any-keep p q [] h = refl
any-keep p q (r ∷ rows) h = ground (arith, any-keep p q rows)

-- A row with another provider stays, and stays apart from the new one.
fresh-replace :
    (row r : LlmSettings) (rows : List LlmSettings)
    → any (same_provider r.provider) rows ≡ false
    → same_provider row.provider r ≡ false
    → any (same_provider r.provider) (replace_row row rows) ≡ false
unfolding replace_row same_provider
fresh-replace row r rows fresh apart =
    let kept =
      any-keep (same_provider r.provider) (λ x. not (same_provider row.provider x)) rows fresh in
    any-append (same_provider r.provider) (keep (λ x. not (same_provider row.provider x)) rows) row
    ∙ ground (arith, kept, same_text_symm row.provider r.provider, apart)

replace_row-Unique :
    (row : LlmSettings) (rows : List LlmSettings) → Unique rows → Unique (replace_row row rows)
unfolding replace_row keep
replace_row-Unique row [] u = (any_nil (same_provider row.provider), tt)
replace_row-Unique row (r ∷ rows) (fresh, u) = elim (Bool-cases (same_provider row.provider r)) [
  | inl same ↦ rw same (replace_row-Unique row rows u)
  | inr apart ↦ rw apart (fresh-replace row r rows fresh apart, replace_row-Unique row rows u)
]

all-keep_more :
    (p q : LlmSettings → Bool) (rows : List LlmSettings)
    → all p rows ≡ true
    → all p (keep q rows) ≡ true
unfolding all keep
all-keep_more p q [] h = refl
all-keep_more p q (r ∷ rows) h = ground (arith, all-keep_more p q rows)

all_one : (p : LlmSettings → Bool) (row : LlmSettings) → p row ≡ true → all p (row ∷ []) ≡ true
unfolding all
all_one p row h = ground arith

both : {a b : Bool} → a ≡ true → b ≡ true → (a && b) ≡ true
both h h' = ground arith

pub replace_row-IsTable :
    (row : LlmSettings) (rows : List LlmSettings)
    → is_provider row.provider ≡ true
    → IsTable rows
    → IsTable (replace_row row rows)
unfolding replace_row
replace_row-IsTable row rows h t = record {
  checked =
      all-append (λ r. is_provider r.provider) (keep (λ r. not (same_provider row.provider r)) rows)
        (row ∷ [])
      ∙ both
          (all-keep_more (λ r. is_provider r.provider) (λ r. not (same_provider row.provider r))
            rows t.checked)
          (all_one (λ r. is_provider r.provider) row h);
  unique = replace_row-Unique row rows t.unique;
}
