-- ===== src/Discovery/Apn/Digits.antt =====
-- What `normalize_apn` of src/agents/discovery.py finds.
use property_management_lead.Common.{
  ℕ, suc, ◌≤◌, ◌≡◌, refl, not, keep_full, strip, strip_none, is_empty, Unicode, sym, ap, subst, ◌∙◌,
  ◌⊎◌, Bool, true, false, ◌||◌, Option, none, some, List, [], ◌∷◌, ◌++◌, all, keep, length,
  starts_with, has_infix, Text, codes, text_eq, ◌==◌, eqb, eqb_iff, if◌then◌else◌, arith,
  Option-cases, inl, inr, Bool-cases,
}
use property_management_lead.Common.Dict.{lookup}
use property_management_lead.Common.Result.{ok}
use property_management_lead.County.Where.{validate_apn}
use property_management_lead.County.Where
use property_management_lead.Discovery.Apn.{
  Part, digit, optional_dash, digits, apn_patterns, cons_match, or_else, match_here, search,
  normalize_apn,
}

-- How many digits a pattern wants.
unfoldable pub count : List Part → ℕ
count [] = 0
count (digit ∷ parts) = suc (count parts)
count (optional_dash ∷ parts) = count parts

abbrev pub apn_char : (ℕ → Bool) → ℕ → Bool
apn_char is_digit c = is_digit c || eqb c b'-'

some_injective {ℓ} : {A : Type ℓ} {a b : A} → some a ≡ some b → a ≡ b
some_injective e = cc

cons_match-inv :
    (c : ℕ) (found : Option Text) {apn : Text}
    → cons_match c found ≡ some apn
    → (text : Text) × (found ≡ some text) × (c ∷ text ≡ apn)
cons_match-inv c none e = cc
cons_match-inv c (some text) e = (text, refl, some_injective e)

or_else-inv :
    (a b : Option Text) {apn : Text} → or_else a b ≡ some apn → (a ≡ some apn) ⊎ (b ≡ some apn)
or_else-inv none b e = inr e
or_else-inv (some text) b e = inl e

starts_with-nil : (s : Text) → starts_with s [] ≡ true
unfolding starts_with
starts_with-nil [] = refl
starts_with-nil (c ∷ s) = refl

module _ (is_digit : ℕ → Bool) (no_digit : is_digit b'-' ≡ false) where
  -- A match, and the text that it was found in.
  pub record IsMatch (parts : List Part) (s apn : Text) : Type 0 where
    pub starts : starts_with s apn ≡ true
    pub chars : all (apn_char is_digit) apn ≡ true
    pub number : length (keep is_digit apn) ≡ count parts

  IsMatch-digit :
      (parts : List Part) (c : ℕ) (s apn : Text)
      → is_digit c ≡ true
      → IsMatch parts s apn
      → IsMatch (digit ∷ parts) (c ∷ s) (c ∷ apn)
  unfolding starts_with all keep count
  IsMatch-digit parts c s apn d m = record {
    starts = ground (arith, eqb_iff c c, m.starts);
    chars = ground (arith, m.chars);
    number = rw d (ap suc m.number);
  }

  IsMatch-dash :
      (parts : List Part) (c : ℕ) (s apn : Text)
      → eqb c b'-' ≡ true
      → IsMatch parts s apn
      → IsMatch (optional_dash ∷ parts) (c ∷ s) (c ∷ apn)
  unfolding starts_with all keep count
  IsMatch-dash parts c s apn dash m =
      let d : is_digit c ≡ false =
        subst (λ x. is_digit x ≡ false) (sym ((eqb_iff c b'-').0 dash)) no_digit in
      record {
        starts = ground (arith, eqb_iff c c, m.starts);
        chars = ground (arith, m.chars);
        number = rw d m.number;
      }

  IsMatch-skip :
      (parts : List Part) (s apn : Text)
      → IsMatch parts s apn
      → IsMatch (optional_dash ∷ parts) s apn
  unfolding count
  IsMatch-skip parts s apn m = record { starts = m.starts; chars = m.chars; number = m.number }

  match_here-IsMatch :
      (parts : List Part) (s : Text) {apn : Text}
      → match_here is_digit parts s ≡ some apn
      → IsMatch parts s apn
  unfolding match_here starts_with all keep count
  match_here-IsMatch [] s e =
      subst (IsMatch [] s) (some_injective e)
        (record { starts = starts_with-nil s; chars = refl; number = refl })
  match_here-IsMatch (digit ∷ parts) [] e = cc
  match_here-IsMatch (digit ∷ parts) (c ∷ s) e = elim (Bool-cases (is_digit c)) [
    | inl d ↦
        let (text, found, same) =
          cons_match-inv c (match_here is_digit parts s) (
            sym (ap (λ b. if b then cons_match c (match_here is_digit parts s) else none) d) ∙ e) in
        subst (IsMatch (digit ∷ parts) (c ∷ s)) same
          (IsMatch-digit parts c s text d (match_here-IsMatch parts s found))
    | inr d ↦ absurd (ground arith)
  ]
  match_here-IsMatch (optional_dash ∷ parts) [] {apn} e =
      IsMatch-skip parts [] apn (match_here-IsMatch parts [] e)
  match_here-IsMatch (optional_dash ∷ parts) (c ∷ s) {apn} e = elim (Bool-cases (eqb c b'-')) [
    | inl dash ↦
        elim (or_else-inv (cons_match c (match_here is_digit parts s))
          (match_here is_digit parts (c ∷ s))
          (sym (
              ap
                (λ b.
                  if b
                  then or_else (cons_match c (match_here is_digit parts s))
                      (match_here is_digit parts (c ∷ s))
                  else match_here is_digit parts (c ∷ s))
                dash)
            ∙ e)) [
              | inl e' ↦
                  let (text, found, same) = cons_match-inv c (match_here is_digit parts s) e' in
                  subst (IsMatch (optional_dash ∷ parts) (c ∷ s)) same
                    (IsMatch-dash parts c s text dash (match_here-IsMatch parts s found))
              | inr e' ↦ IsMatch-skip parts (c ∷ s) apn (match_here-IsMatch parts (c ∷ s) e')
            ]
    | inr other ↦ IsMatch-skip parts (c ∷ s) apn (match_here-IsMatch parts (c ∷ s) (ground arith))
  ]

  search-IsMatch :
      (parts : List Part) (s : Text) {apn : Text}
      → search is_digit parts s ≡ some apn
      → (has_infix s apn ≡ true)
        × (all (apn_char is_digit) apn ≡ true)
        × (length (keep is_digit apn) ≡ count parts)
  unfolding search has_infix
  search-IsMatch parts [] e = let m = match_here-IsMatch parts [] e in (m.starts, m.chars, m.number)
  search-IsMatch parts (c ∷ s) {apn} e =
      elim (or_else-inv (match_here is_digit parts (c ∷ s)) (search is_digit parts s) e) [
        | inl e' ↦
            let m = match_here-IsMatch parts (c ∷ s) e' in
            (ground (arith, m.starts), m.chars, m.number)
        | inr e' ↦
            let (within, chars, number) = search-IsMatch parts s e' in
            (ground (arith, within), chars, number)
      ]

all_imp :
    (p q : ℕ → Bool)
    → ((c : ℕ) → p c ≡ true → q c ≡ true)
    → (s : Text) → all p s ≡ true
    → all q s ≡ true
unfolding all
all_imp p q h [] e = refl
all_imp p q h (c ∷ s) e = ground (arith, h c, all_imp p q h s)

pattern_wants :
    (county : Text) {parts : List Part} → lookup county apn_patterns ≡ some parts → 1 ≤ count parts
unfolding lookup count
pattern_wants county {parts} e = elim (Bool-cases (county == codes "Orange County")) [
  | inl orange ↦
      let same : digits 3 ++ optional_dash ∷ (digits 3 ++ optional_dash ∷ digits 2) ≡ parts =
        ground arith in
      subst (λ (p : List Part). 1 ≤ count p) same (omega arith)
  | inr other ↦ elim (Bool-cases (county == codes "Los Angeles County")) [
    | inl angeles ↦
        let same : digits 4 ++ optional_dash ∷ (digits 3 ++ optional_dash ∷ digits 3) ≡ parts =
          ground arith in
        subst (λ (p : List Part). 1 ≤ count p) same (omega arith)
    | inr none_of_them ↦ absurd (ground arith)
  ]
]

non_empty : (p : ℕ → Bool) (apn : Text) → 1 ≤ length (keep p apn) → is_empty apn ≡ false
unfolding keep
non_empty p [] h = absurd (omega arith)
non_empty p (c ∷ apn) h = refl

-- An APN that is found in an address stands there, has as many digits as the county's pattern
-- wants, and is accepted as it is by the query of the county's server: where a dash is no digit and
-- neither digits nor dashes are white space.
pub validate_apn-normalize_apn :
    (unicode : Unicode) (address county : Text) {apn : Text}
    → unicode.is_digit b'-' ≡ false
    → ((c : ℕ) → apn_char unicode.is_digit c ≡ true → not (unicode.is_space c) ≡ true)
    → normalize_apn unicode.is_digit address county ≡ some apn
    → (has_infix address apn ≡ true)
      × ((parts : List Part) × (lookup county apn_patterns ≡ some parts)
          × (length (keep unicode.is_digit apn) ≡ count parts))
      × (validate_apn unicode apn ≡ ok apn)
unfolding normalize_apn validate_apn Where.apn_char
validate_apn-normalize_apn unicode address county {apn} dash space e =
    elim (Option-cases (lookup county apn_patterns)) [
      | inl e' ↦ absurd (ground arith)
      | inr (parts, e') ↦
          let found : search unicode.is_digit parts address ≡ some apn = ground arith in
          let (within, chars, number) = search-IsMatch unicode.is_digit dash parts address found in
          let kept : keep (Where.apn_char unicode) apn ≡ apn =
            keep_full (Where.apn_char unicode) apn chars in
          let stripped : strip unicode.is_space apn ≡ apn =
            strip_none unicode.is_space apn (
              all_imp (apn_char unicode.is_digit) (λ c. not (unicode.is_space c)) space apn
                chars) in
          let some_text : is_empty apn ≡ false =
            non_empty unicode.is_digit apn (omega (arith, pattern_wants county e', number)) in
          (within, (parts, e', number), rw (kept, stripped, some_text) refl)
    ]
