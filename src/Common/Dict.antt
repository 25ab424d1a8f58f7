-- ===== src/Common/Dict.antt =====
-- A Python `dict`, and a table with a primary key, as entries in insertion order.
use property_management_lead.Common.{
  ◌≡◌, refl, Option, none, some, List, [], ◌∷◌, ◌++◌, arith, Eq, ◌==◌, eq_iff, eq_refl,
  if◌then◌else◌, All, subst, Bool-cases, inl, inr,
}

abbrev pub Dict {ℓ κ} : Type ℓ → Type κ → Type (ℓ ⊔ κ)
Dict K V = List (K × V)

module _ {ℓ κ} {K : Type ℓ} {V : Type κ} ⦃e : Eq K⦄ where
  -- `d.get(k)`
  unfoldable pub lookup : K → Dict K V → Option V
  lookup k [] = none
  lookup k ((j, v) ∷ d) = if k == j then some v else lookup k d

  -- `d[k] = v`: an old key keeps its place.
  unfoldable pub insert : K → V → Dict K V → Dict K V
  insert k v [] = (k, v) ∷ []
  insert k v ((j, w) ∷ d) = if k == j then (j, v) ∷ d else (j, w) ∷ insert k v d

  -- `d.pop(k, None)`
  unfoldable pub erase : K → Dict K V → Dict K V
  erase k [] = []
  erase k ((j, w) ∷ d) = let rest = erase k d in if k == j then rest else (j, w) ∷ rest

  -- No key is listed twice.
  abbrev pub NodupKeys : Dict K V → Type κ
  NodupKeys [] = Unit
  NodupKeys ((k, _) ∷ d) = (lookup k d ≡ none) × NodupKeys d

  pub lookup-nil : (k : K) → lookup k [] ≡ none
  unfolding lookup
  lookup-nil k = refl

  pub lookup-insert :
      (j k : K) (v : V) (d : Dict K V)
      → lookup j (insert k v d) ≡ (if j == k then some v else lookup j d)
  unfolding insert lookup
  lookup-insert j k v [] = refl
  lookup-insert j k v ((i, _) ∷ d) =
      ground (arith, lookup-insert j k v d, eq_iff j k, eq_iff k i, eq_iff j i)

  pub lookup-erase :
      (j k : K) (d : Dict K V) → lookup j (erase k d) ≡ (if j == k then none else lookup j d)
  unfolding erase lookup
  lookup-erase j k [] = ground arith
  lookup-erase j k ((i, _) ∷ d) =
      ground (arith, lookup-erase j k d, eq_iff j k, eq_iff k i, eq_iff j i)

  pub insert-NodupKeys : (k : K) (v : V) (d : Dict K V) → NodupKeys d → NodupKeys (insert k v d)
  unfolding insert
  insert-NodupKeys k v [] _ = (lookup-nil k, tt)
  insert-NodupKeys k v ((j, _) ∷ d) (fresh, u) =
      ground (arith, insert-NodupKeys k v d u, lookup-insert j k v d, eq_iff j k, eq_iff k j)

  pub erase-NodupKeys : (k : K) (d : Dict K V) → NodupKeys d → NodupKeys (erase k d)
  unfolding erase
  erase-NodupKeys k [] _ = tt
  erase-NodupKeys k ((j, _) ∷ d) (fresh, u) =
      ground (arith, erase-NodupKeys k d u, lookup-erase j k d)

  -- `INSERT OR IGNORE` and `INSERT OR REPLACE` by primary key: a replaced row is a new row.
  unfoldable pub insert_or_ignore : K → V → Dict K V → Dict K V
  insert_or_ignore k v d = elim (lookup k d) [ none ↦ d ++ (k, v) ∷ [] | some w ↦ d ]

  unfoldable pub insert_or_replace : K → V → Dict K V → Dict K V
  unfolding erase
  insert_or_replace k v d = erase k d ++ (k, v) ∷ []

  pub lookup-append :
      (j : K) (d d' : Dict K V)
      → lookup j (d ++ d') ≡ elim (lookup j d) [ none ↦ lookup j d' | some v ↦ some v ]
  unfolding lookup
  lookup-append j [] d' = refl
  lookup-append j ((i, v) ∷ d) d' = ground (arith, lookup-append j d d')

  pub lookup-insert_or_ignore :
      (j k : K) (v : V) (d : Dict K V)
      → lookup j (insert_or_ignore k v d)
        ≡ elim (lookup j d) [ none ↦ if j == k then some v else none | some w ↦ some w ]
  unfolding insert_or_ignore lookup
  lookup-insert_or_ignore j k v d = ground (arith, lookup-append j d ((k, v) ∷ []), eq_iff j k)

  pub lookup-insert_or_replace :
      (j k : K) (v : V) (d : Dict K V)
      → lookup j (insert_or_replace k v d) ≡ (if j == k then some v else lookup j d)
  unfolding insert_or_replace lookup
  lookup-insert_or_replace j k v d =
      ground (arith, lookup-append j (erase k d) ((k, v) ∷ []), lookup-erase j k d)

  pub insert_or_ignore_old :
      (k : K) (v : V) (d : Dict K V) {w : V} → lookup k d ≡ some w → insert_or_ignore k v d ≡ d
  unfolding insert_or_ignore
  insert_or_ignore_old k v d e = ground arith

  pub append-NodupKeys :
      (k : K) (v : V) (d : Dict K V)
      → NodupKeys d
      → lookup k d ≡ none
      → NodupKeys (d ++ (k, v) ∷ [])
  unfolding lookup
  append-NodupKeys k v [] u absent = (refl, tt)
  append-NodupKeys k v ((j, w) ∷ d) (fresh, u) absent =
      ground
        (arith, append-NodupKeys k v d u, lookup-append j d ((k, v) ∷ []), eq_iff j k, eq_iff k j)

  pub insert_or_ignore-NodupKeys :
      (k : K) (v : V) (d : Dict K V) → NodupKeys d → NodupKeys (insert_or_ignore k v d)
  unfolding insert_or_ignore
  insert_or_ignore-NodupKeys k v d u = ground (arith, append-NodupKeys k v d u)

  pub insert_or_replace-NodupKeys :
      (k : K) (v : V) (d : Dict K V) → NodupKeys d → NodupKeys (insert_or_replace k v d)
  unfolding insert_or_replace
  insert_or_replace-NodupKeys k v d u =
      append-NodupKeys k v (erase k d) (erase-NodupKeys k d u)
        (rw lookup-erase (ground (arith, eq_refl k)))

  pub insert_fresh :
      (k : K) (v : V) (d : Dict K V) → lookup k d ≡ none → insert k v d ≡ d ++ (k, v) ∷ []
  unfolding insert lookup
  insert_fresh k v [] h = refl
  insert_fresh k v ((j, w) ∷ d) h = ground (arith, insert_fresh k v d)

  -- What is found in a dict has what all of its entries have.
  pub lookup-All :
      (P : V → Type 0) (d : Dict K V) (key : K) {v : V}
      → All (λ (entry : K × V). P entry.1) d
      → lookup key d ≡ some v
      → P v
  unfolding lookup
  lookup-All P [] key holds e = cc
  lookup-All P ((k, w) ∷ d) key {v} (here, there) e = elim (Bool-cases (key == k)) [
    | inl h ↦ subst P (ground arith) here
    | inr h ↦ lookup-All P d key there (ground arith)
  ]
