-- ===== src/Credentials/Fallback.antt =====
-- What `get_credential` of src/utils/credentials.py returns after a credential is stored or deleted.
use property_management_lead.Common.{
  ◌≡◌, ◌≢◌, refl, ap, ◌∙◌, eq_refl, Bool, true, false, none, some, List, [], ◌∷◌, Text, text_eq,
  ◌==◌, strip, is_empty, arith, if◌then◌else◌, Option-cases, inl, inr,
}
use property_management_lead.Common.Dict.{insert, lookup-insert}
use property_management_lead.Common.Result.{Kind, ok, raised, Result-cases}
use property_management_lead.Credentials.{
  Byte, xor_byte, key_byte, mask, masked_with, Store, Codec, deleted, Keyring, World, obfuscate,
  parse_store, load_fallback_store, save_fallback_store, file_store_credential, file_get_credential,
  store_credential, get_credential, delete_credential,
}
use property_management_lead.Credentials.Obfuscation.{IsCodec, deobfuscate-obfuscate}

-- What base64, UTF-8 and JSON promise: they read back what they wrote, write no text without
-- characters for one with characters, and no white space around base64.
pub record IsStoreCodec (codec : Codec) : Type 0 where
  pub codes_back : IsCodec codec
  pub json : (store : Store) → codec.loads (codec.dumps store) ≡ some store
  pub json_filled : (store : Store) → is_empty (codec.dumps store) ≡ false
  pub utf8_filled : (text : Text) → is_empty text ≡ false → codec.utf8 text ≢ []
  pub base64_filled : (b : Byte) (raw : List Byte) → is_empty (codec.b64encode (b ∷ raw)) ≡ false
  pub base64_trimmed :
      (raw : List Byte) → strip codec.is_space (codec.b64encode raw) ≡ codec.b64encode raw

masked_with-filled :
    (key raw : List Byte) {hidden : List Byte}
    → raw ≢ []
    → masked_with key raw ≡ some hidden
    → (b : Byte) × (bs : List Byte) × (hidden ≡ b ∷ bs)
unfolding masked_with mask
masked_with-filled key [] filled h = absurd (filled refl)
masked_with-filled [] (b ∷ bs) filled h = absurd (ground arith)
masked_with-filled (k ∷ key) (b ∷ bs) filled h =
    (xor_byte b (key_byte (k ∷ key) 0), mask (k ∷ key) 1 bs, ground arith)

masked_with-done :
    (key raw : List Byte) → key ≢ [] → (hidden : List Byte) × (masked_with key raw ≡ some hidden)
unfolding masked_with
masked_with-done [] raw filled = absurd (filled refl)
masked_with-done (k ∷ key) raw filled = (_, refl)

-- A file that can be written, by a machine with a name.
abbrev pub CanWrite : Codec → {K : Type 0} → World K → Type 0
CanWrite codec w = (codec.machine_key ≢ []) × (w.writable ≡ true)

module _ (codec : Codec) {K : Type 0} where
  save-done :
      (store : Store) (w : World K)
      → CanWrite codec w
      → (contents : Text) × (save_fallback_store codec store w
          ≡ some (record w { file = some contents }))
  unfolding save_fallback_store obfuscate
  save-done store w (key, writable) =
      let (raw, e) = masked_with-done codec.machine_key (codec.utf8 (codec.dumps store)) key in
      (codec.b64encode raw, ground (arith, e, writable))

  pub file_store-done :
      (key value : Text) (w : World K)
      → CanWrite codec w
      → (contents : Text) × (file_store_credential codec key value w
          ≡ (true, record w { file = some contents }))
  unfolding file_store_credential
  file_store-done key value w can =
      let (contents, e) = save-done (insert key value (load_fallback_store codec w.file)) w can in
      (contents, rw (file_store_credential, e) refl)

module _ (codec : Codec) (laws : IsStoreCodec codec) where
  -- The file that is written has characters, and none of them are stripped.
  obfuscate-filled :
      (store : Store) {contents : Text}
      → obfuscate codec (codec.dumps store) ≡ some contents
      → (is_empty contents ≡ false) × (strip codec.is_space contents ≡ contents)
  unfolding obfuscate
  obfuscate-filled store {contents} h =
      elim (Option-cases (masked_with codec.machine_key (codec.utf8 (codec.dumps store)))) [
        | inl e ↦ absurd (ground arith)
        | inr (raw, e) ↦
            let (b, bs, shape) =
              masked_with-filled codec.machine_key (codec.utf8 (codec.dumps store))
                (laws.utf8_filled (codec.dumps store) (laws.json_filled store)) e in
            (ground (arith, laws.base64_filled b bs), ground (arith, laws.base64_trimmed raw))
      ]

  parse_store-obfuscate :
      (store : Store) {contents : Text}
      → obfuscate codec (codec.dumps store) ≡ some contents
      → load_fallback_store codec (some contents) ≡ store
  unfolding load_fallback_store parse_store
  parse_store-obfuscate store h = ground (
    arith,
    obfuscate-filled store h,
    deobfuscate-obfuscate codec laws.codes_back (codec.dumps store) h,
    laws.json store,
  )

  module _ {K : Type 0} where
    -- A store that was saved is the store that is loaded.
    load-save_fallback_store :
        (store : Store) (w : World K) {w' : World K}
        → save_fallback_store codec store w ≡ some w'
        → load_fallback_store codec w'.file ≡ store
    unfolding save_fallback_store
    load-save_fallback_store store w h = elim (Option-cases (obfuscate codec (codec.dumps store))) [
      | inl e ↦ absurd (ground arith)
      | inr (contents, e) ↦ ground (arith, parse_store-obfuscate store e)
    ]

    file_store-eq-true :
        (key value : Text) (w : World K)
        → (file_store_credential codec key value w).0 ≡ true
        → load_fallback_store codec (file_store_credential codec key value w).1.file
          ≡ insert key value (load_fallback_store codec w.file)
    unfolding file_store_credential
    file_store-eq-true key value w h =
        elim (Option-cases
          (save_fallback_store codec (insert key value (load_fallback_store codec w.file)) w)) [
            | inl e ↦ absurd (ground arith)
            | inr (w', e) ↦ rw (file_store_credential, e) (load-save_fallback_store _ w e)
          ]

    -- Without a keychain, and where base64, UTF-8 and JSON read back what they wrote: storing a
    -- credential, if it returns True, gives it to its key, and leaves all other keys as they were.
    pub get_credential-store_credential :
        (key value : Text) (w : World K) (other : Text)
        → (store_credential codec none key value w).0 ≡ true
        → get_credential codec none other (store_credential codec none key value w).1
          ≡ (if other == key then some value else get_credential codec none other w)
    unfolding get_credential store_credential file_get_credential
    get_credential-store_credential key value w other h =
        rw (file_store-eq-true key value w h)
          (lookup-insert other key value (load_fallback_store codec w.file))

module _ (codec : Codec) {K : Type 0} where
  save-keychain :
      (store : Store) (w : World K) {w' : World K}
      → save_fallback_store codec store w ≡ some w'
      → w'.keychain ≡ w.keychain
  unfolding save_fallback_store
  save-keychain store w h = elim (Option-cases (obfuscate codec (codec.dumps store))) [
    | inl e ↦ absurd (ground arith)
    | inr (contents, e) ↦ ground arith
  ]

  file_store-keychain :
      (key value : Text) (w : World K)
      → (file_store_credential codec key value w).1.keychain ≡ w.keychain
  unfolding file_store_credential
  file_store-keychain key value w =
      elim (Option-cases
        (save_fallback_store codec (insert key value (load_fallback_store codec w.file)) w)) [
          | inl e ↦ rw (file_store_credential, e) refl
          | inr (w', e) ↦ rw (file_store_credential, e) (save-keychain _ w e)
        ]

  -- Whatever the file does, the keychain is left as `set_password` left it.
  store-keychain :
      (keyring : Keyring K) (key value : Text) (w : World K)
      → (store_credential codec (some keyring) key value w).1.keychain
        ≡ (keyring.set_password key value w.keychain).1
  unfolding store_credential
  store-keychain keyring key value w =
      elim (Result-cases (keyring.set_password key value w.keychain).0) [
        | inl (unit, e) ↦ rw (store_credential, e) refl
        | inr (kind, message, e) ↦ rw (store_credential, e) (file_store-keychain key value _)
      ]

  store_in_file :
      (keyring : Keyring K) (key value : Text) (w : World K) {kind : Kind} {message : Text}
      → (keyring.set_password key value w.keychain).0 ≡ raised kind message
      → store_credential codec (some keyring) key value w
        ≡ file_store_credential codec key value
            (record w { keychain = (keyring.set_password key value w.keychain).1 })
  unfolding store_credential
  store_in_file keyring key value w failed = rw (store_credential, failed) refl

  get_credential_found :
      (keyring : Keyring K) (key value : Text) (w : World K)
      → keyring.get_password key w.keychain ≡ ok (some value)
      → get_credential codec (some keyring) key w ≡ some value
  unfolding get_credential
  get_credential_found keyring key value w h = rw h refl

  -- Where the keychain cannot write a key but still holds an older value, and the file can be
  -- written by lawful base64, UTF-8 and JSON: storing a new value returns True and puts it into the
  -- file, and yet the older value is returned afterwards.
  pub get_credential_stale :
      (laws : IsStoreCodec codec) (keyring : Keyring K) (key value old : Text) (w : World K)
      {kind : Kind} {message : Text}
      → CanWrite codec w
      → (keyring.set_password key value w.keychain).0 ≡ raised kind message
      → keyring.get_password key (keyring.set_password key value w.keychain).1 ≡ ok (some old)
      → let (done, after) = store_credential codec (some keyring) key value w in
        (done ≡ true)
        × (get_credential codec none key after ≡ some value)
        × (get_credential codec (some keyring) key after ≡ some old)
  unfolding store_credential file_store_credential
  get_credential_stale laws keyring key value old w can failed kept =
      let w' : World K = record w { keychain = (keyring.set_password key value w.keychain).1 } in
      let (contents, done) = file_store-done codec key value w' can in
      let in_file = store_in_file keyring key value w failed in
      let stored : (file_store_credential codec key value w').0 ≡ true =
        ap (λ (r : Bool × World K). r.0) done in
      (
        ap (λ (r : Bool × World K). r.0) in_file ∙ stored,
        ap (λ (r : Bool × World K). get_credential codec none key r.1) in_file
            ∙ get_credential-store_credential codec laws key value w' key stored
            ∙ ap (λ b. if b then some value else get_credential codec none key w') (eq_refl key),
        get_credential_found keyring key old (store_credential codec (some keyring) key value w).1
            (rw (store-keychain keyring key value w) kept),
      )

  -- Where the keychain deletes a key and then holds no value for it, a value of the key in the
  -- file stays, and is returned afterwards.
  pub get_credential-delete_credential :
      (keyring : Keyring K) (key : Text) (w : World K)
      → (keyring.delete_password key w.keychain).0 ≡ deleted
      → keyring.get_password key (keyring.delete_password key w.keychain).1 ≡ ok none
      → get_credential codec (some keyring) key (delete_credential codec (some keyring) key w).1
        ≡ get_credential codec none key w
  unfolding get_credential delete_credential file_get_credential
  get_credential-delete_credential keyring key w gone absent = ground (arith, gone, absent)
