-- ===== src/Leads/Dedup.antt =====
-- `deduplicate` of src/agents/output_synthesis.py keeps the last lead of each APN.
use mathlib.Core.List.{map-append, append_assoc, append-nil}
use property_management_lead.Common.{
  ◌≡◌, refl, ◌≢◌, sym, ap, ◌∙◌, Bool, true, false, Option, none, some, List, [], ◌∷◌, ◌++◌, codes,
  arith, ◌==◌, eq_iff, eq_refl, All, if◌then◌else◌, Option-cases, inl, inr, ◌⊎◌, subst, Bool-cases,
}
use property_management_lead.Common.Dict.{
  Dict, lookup, lookup-nil, insert, lookup-insert, NodupKeys, insert-NodupKeys, insert_fresh,
}
use property_management_lead.Common.Result.{ok, >>=-eq-ok}
use property_management_lead.Common.Value.{null, Object, truthy, get, Runtime, Key, key_eq, key_of}
use property_management_lead.Leads.{values, remember, remember_all, deduplicate}

module _ (runtime : Runtime) where
  -- The key under which a lead is kept, if its APN is truthy and hashable.
  abbrev pub lead_key : Object → Option Key
  lead_key lead =
      if truthy (get lead (codes "apn") null)
      then key_of runtime (get lead (codes "apn") null)
      else none

  abbrev has_key : Option Key → Key → Bool
  has_key none key = false
  has_key (some k) key = key == k

  -- The last lead of a list that has the key.
  unfoldable pub last_with : Key → List Object → Option Object
  last_with key [] = none
  last_with key (lead ∷ leads) = elim (last_with key leads) [
    | none ↦ if has_key (lead_key lead) key then some lead else none
    | some later ↦ some later
  ]

  -- Every lead has a key, and no two have the same.
  abbrev pub IsDistinct : List Object → Type 0
  IsDistinct [] = Unit
  IsDistinct (lead ∷ leads) =
      ((key : Key) × (lead_key lead ≡ some key) × (last_with key leads ≡ none)) × IsDistinct leads

  -- Each entry of the dict is a lead under its own key.
  abbrev IsKeyed : Dict Key Object → Type 0
  IsKeyed [] = Unit
  IsKeyed ((key, lead) ∷ seen) = (lead_key lead ≡ some key) × IsKeyed seen

  insert-IsKeyed :
      (key : Key) (lead : Object) (seen : Dict Key Object)
      → lead_key lead ≡ some key
      → IsKeyed seen
      → IsKeyed (insert key lead seen)
  unfolding insert
  insert-IsKeyed key lead [] own h = (own, tt)
  insert-IsKeyed key lead ((j, other) ∷ seen) own (h, hs) =
      ground (arith, insert-IsKeyed key lead seen own hs, eq_iff key j)

  remember-eq-ok :
      (seen : Dict Key Object) (lead : Object) {seen' : Dict Key Object}
      → remember runtime seen lead ≡ ok seen'
      → ((key : Key) × (lead_key lead ≡ some key) × (seen' ≡ insert key lead seen))
        ⊎ ((lead_key lead ≡ none) × (seen' ≡ seen))
  unfolding remember
  remember-eq-ok seen lead h = elim (Bool-cases (truthy (get lead (codes "apn") null))) [
    | inl t ↦ elim (Option-cases (key_of runtime (get lead (codes "apn") null))) [
      | inl e ↦ absurd (ground arith)
      | inr (key, e) ↦ inl (key, ground arith, ground arith)
    ]
    | inr t ↦ inr (ground arith, ground arith)
  ]

  -- What the loop leaves under a key.
  lookup-remember_all :
      (seen : Dict Key Object) (leads : List Object) {seen' : Dict Key Object} (key : Key)
      → remember_all runtime seen leads ≡ ok seen'
      → lookup key seen'
        ≡ elim (last_with key leads) [ none ↦ lookup key seen | some lead ↦ some lead ]
  unfolding remember_all last_with
  lookup-remember_all seen [] key h = ground arith
  lookup-remember_all seen (lead ∷ leads) key h =
      let (next, p, q) = >>=-eq-ok (remember runtime seen lead) _ h in
      let rest = lookup-remember_all next leads key q in
      elim (remember-eq-ok seen lead p) [
        | inl (k, own, e) ↦ ground (arith, rest, lookup-insert key k lead seen)
        | inr (own, e) ↦ ground (arith, rest)
      ]

  remember_all-IsKeyed :
      (seen : Dict Key Object) (leads : List Object) {seen' : Dict Key Object}
      → remember_all runtime seen leads ≡ ok seen'
      → IsKeyed seen × NodupKeys seen
      → IsKeyed seen' × NodupKeys seen'
  unfolding remember_all
  remember_all-IsKeyed seen [] h inv = subst (λ d. IsKeyed d × NodupKeys d) (ground arith) inv
  remember_all-IsKeyed seen (lead ∷ leads) h inv =
      let (next, p, q) = >>=-eq-ok (remember runtime seen lead) _ h in
      remember_all-IsKeyed next leads q (elim (remember-eq-ok seen lead p) [
        | inl (k, own, e) ↦
            rw e (insert-IsKeyed k lead seen own inv.0, insert-NodupKeys k lead seen inv.1)
        | inr (own, e) ↦ rw e inv
      ])

  last_with-values :
      (seen : Dict Key Object) (key : Key)
      → IsKeyed seen
      → NodupKeys seen
      → last_with key (values seen) ≡ lookup key seen
  unfolding last_with lookup
  last_with-values [] key h u = refl
  last_with-values ((k, lead) ∷ seen) key (own, h) (fresh, u) =
      ground (arith, last_with-values seen key h u, eq_iff key k)

  values-IsDistinct :
      (seen : Dict Key Object) → IsKeyed seen → NodupKeys seen → IsDistinct (values seen)
  values-IsDistinct [] h u = tt
  values-IsDistinct ((k, lead) ∷ seen) (own, h) (fresh, u) =
      ((k, own, last_with-values seen k h u ∙ fresh), values-IsDistinct seen h u)

  last_with-remember_all :
      (leads : List Object) {seen : Dict Key Object} (key : Key)
      → remember_all runtime [] leads ≡ ok seen
      → lookup key seen ≡ last_with key leads
  unfolding lookup
  last_with-remember_all leads key h = ground (arith, lookup-remember_all [] leads key h)

  -- Where deduplication returns, its result holds, under each APN, the last lead of the input with
  -- that APN, each APN once, and nothing else.
  pub deduplicate-keeps_last :
      (leads : List Object) {kept : List Object}
      → deduplicate runtime leads ≡ ok kept
      → IsDistinct kept × ((key : Key) → last_with key kept ≡ last_with key leads)
  unfolding deduplicate
  deduplicate-keeps_last leads {kept} h =
      let (seen, p, q) = >>=-eq-ok (remember_all runtime [] leads) _ h in
      let (keyed, nodup) = remember_all-IsKeyed [] leads p (tt, tt) in
      let same : values seen ≡ kept = ground arith in
      subst (λ ks. IsDistinct ks × ((key : Key) → last_with key ks ≡ last_with key leads)) same
        (
          values-IsDistinct seen keyed nodup,
          λ key. last_with-values seen key keyed nodup ∙ last_with-remember_all leads key p,
        )

  -- The APN of the lead can be a key.
  abbrev pub IsHashable : Object → Type 0
  IsHashable lead =
      truthy (get lead (codes "apn") null) ≡ true
      → key_of runtime (get lead (codes "apn") null) ≢ none

  remember_total :
      (seen : Dict Key Object) (lead : Object)
      → IsHashable lead
      → (seen' : Dict Key Object) × (remember runtime seen lead ≡ ok seen')
  unfolding remember
  remember_total seen lead h = elim (Bool-cases (truthy (get lead (codes "apn") null))) [
    | inl t ↦ elim (Option-cases (key_of runtime (get lead (codes "apn") null))) [
      | inl e ↦ absurd (h t e)
      | inr (key, e) ↦ (insert key lead seen, rw (t, e))
    ]
    | inr t ↦ (seen, rw t)
  ]

  remember_all_total :
      (seen : Dict Key Object) (leads : List Object)
      → All IsHashable leads
      → (seen' : Dict Key Object) × (remember_all runtime seen leads ≡ ok seen')
  unfolding remember_all
  remember_all_total seen [] h = (seen, refl)
  remember_all_total seen (lead ∷ leads) (h, hs) =
      let (next, p) = remember_total seen lead h in
      let (last, q) = remember_all_total next leads hs in (last, rw p q)

  -- It raises nothing if no truthy APN is a list or a dict.
  pub deduplicate_total :
      (leads : List Object)
      → All IsHashable leads
      → (kept : List Object) × (deduplicate runtime leads ≡ ok kept)
  unfolding deduplicate
  deduplicate_total leads h = let (seen, p) = remember_all_total [] leads h in (values seen, rw p)

  remember_keyed :
      (seen : Dict Key Object) (lead : Object) (key : Key)
      → lead_key lead ≡ some key
      → remember runtime seen lead ≡ ok (insert key lead seen)
  unfolding remember
  remember_keyed seen lead key own = elim (Bool-cases (truthy (get lead (codes "apn") null))) [
    | inl t ↦ ground arith
    | inr t ↦ absurd (ground arith)
  ]

  remember_all_fresh :
      (seen : Dict Key Object) (leads : List Object)
      → IsDistinct leads
      → ((key : Key) → last_with key leads ≢ none → lookup key seen ≡ none)
      → (seen' : Dict Key Object) × (remember_all runtime seen leads ≡ ok seen')
        × (values seen' ≡ values seen ++ leads)
  unfolding remember_all last_with
  remember_all_fresh seen [] d fresh = (seen, refl, sym (append-nil _))
  remember_all_fresh seen (lead ∷ leads) ((k, own, last), d) fresh =
      let absent : lookup k seen ≡ none = fresh k (ground (arith, eq_refl k)) in
      let (seen', p, q) = remember_all_fresh (insert k lead seen) leads d (λ key some_later.
        ground (arith, lookup-insert key k lead seen, eq_iff key k, fresh key)) in
      (
        seen',
        rw (remember_keyed seen lead k own) p,
        q ∙ simp (insert_fresh k lead seen absent, map-append, append_assoc),
      )

  -- A list that is already distinct is returned unchanged.
  pub deduplicate_distinct :
      (leads : List Object) → IsDistinct leads → deduplicate runtime leads ≡ ok leads
  unfolding deduplicate
  deduplicate_distinct leads h =
      let (seen, p, q) = remember_all_fresh [] leads h (λ key e. lookup-nil key) in rw p (ap ok q)
