-- ===== src/Credentials/Migration.antt =====
-- What `migrate_from_sqlite` of src/utils/credentials.py leaves in the table.
use property_management_lead.Common.{
  ℕ, zero, suc, ◌≤◌, ◌≡◌, refl, ap, ◌∙◌, Bool, true, false, ◌||◌, Option, none, some, List, [], ◌∷◌,
  ◌++◌, any, Text, codes, text_eq, ◌==◌, eq_refl, arith, length, take, ends_with, is_empty, ltb,
  if◌then◌else◌, Bool-cases, inl, inr, ◌⊎◌,
}
use property_management_lead.Llm.Factory.{LlmSettings}
use property_management_lead.Credentials.{
  Codec, World, mask_key, updated_key, provider_text, key_name, migrate_row, file_store_credential,
  store_credential, get_credential, migrate_from_sqlite,
}
use property_management_lead.Credentials.Fallback.{
  IsStoreCodec, CanWrite, file_store-done, get_credential-store_credential,
}

-- NULL, empty, or with nothing of the key behind its fourth character.
abbrev pub IsMasked : Option Text → Type 0
IsMasked none = Unit
IsMasked (some api_key) = (is_empty api_key || ends_with api_key (codes "****")) ≡ true

-- At most four characters, and stars.
abbrev pub IsStarred : Text → Type 0
IsStarred text = (start : Text) × (text ≡ start ++ codes "****") × (length start ≤ 4)

pub take-length : (n : ℕ) (s : Text) → length (take n s) ≤ n
take-length zero s = omega arith
take-length (suc n) [] = omega arith
take-length (suc n) (c ∷ s) = omega (arith, take-length n s)

pub mask_key-IsStarred : (key : Text) → IsStarred (mask_key key)
unfolding mask_key
mask_key-IsStarred key = elim (Bool-cases (ltb 4 (length key))) [
  | inl e ↦ rw e (take 4 key, refl, take-length 4 key)
  | inr e ↦ rw e ([], refl, omega arith)
]

-- The name of a row's key in the keychain.
abbrev pub name_of : LlmSettings → Text
name_of row = key_name (provider_text row.provider)

-- No two rows have one name.
abbrev pub IsNamed : List LlmSettings → Type 0
IsNamed [] = Unit
IsNamed (row ∷ rows) = (any (λ r. name_of row == name_of r) rows ≡ false) × IsNamed rows

-- A key that was stored stays in the table where the provider is NULL, and is starred elsewhere.
abbrev pub IsLeft : Option Text → Text → Option Text → Type 0
IsLeft none secret left = left ≡ some secret
IsLeft (some name) secret left = (text : Text) × (left ≡ some text) × IsStarred text

updated_key-IsLeft :
    (provider : Option Text) (secret : Text)
    → IsLeft provider secret (some (updated_key provider secret))
unfolding updated_key
updated_key-IsLeft none secret = refl
updated_key-IsLeft (some name) secret = (mask_key secret, refl, mask_key-IsStarred secret)

module _ (codec : Codec) {K : Type 0} where
  -- A key that is masked is left alone; another can be read back from the store under its name.
  abbrev pub IsMoved : World K → Text → Option Text → Option Text → Option Text → Type 0
  IsMoved w name provider api_key left =
      (IsMasked api_key × (left ≡ api_key))
      ⊎ ((secret : Text) × (api_key ≡ some secret)
          × ((is_empty secret || ends_with secret (codes "****")) ≡ false)
          × (get_credential codec none name w ≡ some secret)
          × IsLeft provider secret left)

  -- Each row with the row that is left of it, all else of which is as it was.
  abbrev pub AllMoved : World K → List LlmSettings → List LlmSettings → Type 0
  AllMoved w [] rows' = rows' ≡ []
  AllMoved w (row ∷ rows) [] = ⊥
  AllMoved w (row ∷ rows) (row' ∷ rows') =
      ((row' ≡ record row { api_key = row'.api_key })
        × IsMoved w (name_of row) row.provider row.api_key row'.api_key)
      × AllMoved w rows rows'

  module _ (laws : IsStoreCodec codec) where
    -- A key is stored: it can be read back, and all others are as they were.
    stored :
        (name secret : Text) (w : World K)
        → CanWrite codec w
        → let (done, w') = store_credential codec none name secret w in
          (done ≡ true)
          × CanWrite codec w'
          × ((other : Text)
              → get_credential codec none other w'
                ≡ (if other == name then some secret else get_credential codec none other w))
    unfolding store_credential
    stored name secret w (key, writable) =
        let (contents, e) = file_store-done codec name secret w (key, writable) in
        let done : (file_store_credential codec name secret w).0 ≡ true =
          ap (λ (r : Bool × World K). r.0) e in
        (
          done,
          (key, ap (λ (r : Bool × World K). r.1.writable) e ∙ writable),
          λ other. get_credential-store_credential codec laws name secret w other done,
        )

    -- What a row leaves: the file can still be written, the key is moved, and the keys of other
    -- names are as they were.
    migrate_row-IsMoved :
        (provider api_key : Option Text) (w : World K)
        → CanWrite codec w
        → let ((left, n), w') = migrate_row codec none provider api_key w in
          CanWrite codec w'
          × IsMoved w' (key_name (provider_text provider)) provider api_key left
          × ((other : Text)
              → ((other == key_name (provider_text provider)) ≡ false)
              → get_credential codec none other w' ≡ get_credential codec none other w)
    unfolding migrate_row
    migrate_row-IsMoved provider none w can = (can, inl (tt, refl), λ other e. refl)
    migrate_row-IsMoved provider (some api_key) w can =
        let name = key_name (provider_text provider) in
        let (done, can', reads) = stored name api_key w can in
        elim (Bool-cases (is_empty api_key || ends_with api_key (codes "****"))) [
          | inl e ↦ rw (migrate_row, e) (can, inl (refl, refl), λ other apart. refl)
          | inr e ↦
              rw (migrate_row, e, done)
                (
                  can',
                  inr (
                    api_key,
                    refl,
                    e,
                    reads name
                        ∙ ap (λ b. if b then some api_key else get_credential codec none name w)
                            (eq_refl name),
                    updated_key-IsLeft provider api_key,
                  ),
                  λ other apart.
                      reads other
                      ∙ ap (λ b. if b then some api_key else get_credential codec none other w)
                          apart,
                )
        ]

    -- Rows of other names leave a key as it was.
    migrate-kept :
        (name : Text) (rows : List LlmSettings) (w : World K)
        → CanWrite codec w
        → any (λ r. name == name_of r) rows ≡ false
        → get_credential codec none name (migrate_from_sqlite codec none rows w).1
          ≡ get_credential codec none name w
    unfolding migrate_from_sqlite any
    migrate-kept name [] w can apart = refl
    migrate-kept name (row ∷ rows) w can apart =
        let (can', moved, kept) = migrate_row-IsMoved row.provider row.api_key w can in
        migrate-kept name rows _ can' (ground (arith, apart)) ∙ kept name (ground (arith, apart))

    IsMoved-on :
        (w w' : World K) (name : Text) (provider api_key left : Option Text)
        → get_credential codec none name w' ≡ get_credential codec none name w
        → IsMoved w name provider api_key left
        → IsMoved w' name provider api_key left
    IsMoved-on w w' name provider api_key left kept (inl masked) = inl masked
    IsMoved-on w w' name provider api_key left kept (inr (secret, e, plain, reads, rest)) =
        inr (secret, e, plain, kept ∙ reads, rest)

    -- Without a keychain, with a file that can be written by lawful base64, UTF-8 and JSON, and
    -- where no two rows have one name in the store: migrating keeps the rows in order, with all but
    -- their keys. A key that is NULL, empty or ends with four stars stays. Every other key can be read
    -- back from the store afterwards, under the name of its provider, and at most four characters
    -- and stars are left of it in the table; except that in a row whose provider is NULL it stays.
    pub migrate-AllMoved :
        (rows : List LlmSettings) (w : World K)
        → CanWrite codec w
        → IsNamed rows
        → AllMoved
            (migrate_from_sqlite codec none rows w).1
            rows
            (migrate_from_sqlite codec none rows w).0.0
    unfolding migrate_from_sqlite
    migrate-AllMoved [] w can named = refl
    migrate-AllMoved (row ∷ rows) w can (apart, named) =
        let (can', moved, kept) = migrate_row-IsMoved row.provider row.api_key w can in
        (
          (
            refl,
            IsMoved-on _ _ (name_of row) row.provider row.api_key _
                (migrate-kept (name_of row) rows _ can' apart) moved,
          ),
          migrate-AllMoved rows _ can' named,
        )
