-- ===== src/Credentials.antt =====
-- src/utils/credentials.py: API keys in the OS keychain, or else in an obfuscated file. The keychain,
-- JSON, UTF-8 and base64 are arguments; a byte is its bits. A `chmod` that fails is left out.
pub mod Obfuscation
pub mod Fallback
pub mod Migration
use property_management_lead.Common.{
  ℕ, ◌+◌, ◌%◌, ◌<◌, ◌≡◌, Bool, true, false, not, ◌&&◌, ◌||◌, Option, none, some, List, [], ◌∷◌,
  ◌++◌, strip, length, take, get_elem?, Text, codes, text_eq, is_empty, ends_with, ltb,
  if◌then◌else◌,
}
use property_management_lead.Common.Dict.{Dict, lookup, insert, erase}
use property_management_lead.Common.Result.{Result, ok, raised, ◌>>=◌}
use property_management_lead.Llm.Factory.{LlmSettings}

abbrev pub Byte : Type 0
Byte = List Bool

xor : Bool → Bool → Bool
xor true b = not b
xor false b = b

-- `a ^ b`
pub xor_byte : Byte → Byte → Byte
unfolding xor
xor_byte [] bs = []
xor_byte (a ∷ rest) [] = a ∷ rest
xor_byte (a ∷ rest) (b ∷ bs) = xor a b ∷ xor_byte rest bs

-- `machine_key[i % len(machine_key)]`
key_byte : List Byte → ℕ → Byte
key_byte key i = elim (get_elem? key (i % length key)) [ none ↦ [] | some b ↦ b ]

-- The bytes from number `i` on, each with its byte of the key.
unfoldable pub mask : List Byte → ℕ → List Byte → List Byte
unfolding xor_byte key_byte
mask key i [] = []
mask key i (b ∷ bs) = xor_byte b (key_byte key i) ∷ mask key (i + 1) bs

-- With an empty key the first `i % len(machine_key)` is a ZeroDivisionError.
unfoldable pub masked_with : List Byte → List Byte → Option (List Byte)
unfolding mask
masked_with [] [] = some []
masked_with [] (b ∷ bs) = none
masked_with (k ∷ key) raw = some (mask (k ∷ key) 0 raw)

abbrev pub Store : Type 0
Store = Dict Text Text

pub record Codec : Type 0 where
  -- `os.uname().nodename.encode()[:16]`
  pub machine_key : List Byte
  pub utf8 : Text → List Byte
  pub from_utf8 : List Byte → Option Text
  pub b64encode : List Byte → Text
  pub b64decode : Text → Option (List Byte)
  pub dumps : Store → Text
  pub loads : Text → Option Store
  pub is_space : ℕ → Bool

-- `delete_password` returned, raised PasswordDeleteError, or raised something else.
pub data Deletion : Type 0 where
  deleted already_gone delete_failed : Deletion

-- The module `keyring`, with the state that it keeps.
pub record Keyring (K : Type 0) : Type 0 where
  pub set_password : Text → Text → K → Result (Unit {0}) × K
  pub get_password : Text → K → Result (Option Text)
  pub delete_password : Text → K → Deletion × K

-- The keychain, the text of the fallback file if that exists, and whether it can be written.
pub record World (K : Type 0) : Type 0 where
  pub keychain : K
  pub file : Option Text
  pub writable : Bool

-- `api_key[:4] + "****" if len(api_key) > 4 else "****"`
unfoldable pub mask_key : Text → Text
mask_key api_key = if ltb 4 (length api_key) then take 4 api_key ++ codes "****" else codes "****"

-- f"{provider}"
unfoldable pub provider_text : Option Text → Text
provider_text none = codes "None"
provider_text (some name) = name

-- f"llm/{provider}/api_key"
unfoldable pub key_name : Text → Text
key_name provider = codes "llm/" ++ (provider ++ codes "/api_key")

-- The key after `UPDATE … WHERE provider = ?`, which finds no row where the provider is NULL.
updated_key : Option Text → Text → Text
updated_key none api_key = api_key
updated_key (some name) api_key = mask_key api_key

module _ (codec : Codec) where
  abbrev pub masked : List Byte → Option (List Byte)
  masked = masked_with codec.machine_key

  unfoldable pub obfuscate : Text → Option Text
  obfuscate text = elim (masked (codec.utf8 text)) [
    | none ↦ none
    | some raw ↦ some (codec.b64encode raw)
  ]

  unfoldable pub deobfuscate : Text → Option Text
  deobfuscate text = elim (codec.b64decode text) [
    | none ↦ none
    | some raw ↦ elim (masked raw) [ none ↦ none | some plain ↦ codec.from_utf8 plain ]
  ]

  -- A file that cannot be read as a store counts as an empty one.
  parse_store : Text → Store
  parse_store raw = if is_empty raw then [] else elim (deobfuscate raw) [
    | none ↦ []
    | some decoded ↦ elim (codec.loads decoded) [ none ↦ [] | some store ↦ store ]
  ]

  unfoldable pub load_fallback_store : Option Text → Store
  unfolding parse_store
  load_fallback_store none = []
  load_fallback_store (some contents) = parse_store (strip codec.is_space contents)

  module _ {K : Type 0} where
    -- None where it raises.
    unfoldable pub save_fallback_store : Store → World K → Option (World K)
    save_fallback_store store w = elim (obfuscate (codec.dumps store)) [
      | none ↦ none
      | some contents ↦ if w.writable then some (record w { file = some contents }) else none
    ]

    unfoldable pub file_store_credential : Text → Text → World K → Bool × World K
    file_store_credential key value w =
        elim (save_fallback_store (insert key value (load_fallback_store w.file)) w) [
          | none ↦ (false, w)
          | some w' ↦ (true, w')
        ]

    unfoldable pub file_get_credential : Text → World K → Option Text
    file_get_credential key w = lookup key (load_fallback_store w.file)

    unfoldable pub file_delete_credential : Text → World K → World K
    file_delete_credential key w =
        elim (save_fallback_store (erase key (load_fallback_store w.file)) w) [
          | none ↦ w
          | some w' ↦ w'
        ]

    -- `keyring` is none where it cannot be imported.
    unfoldable pub store_credential : Option (Keyring K) → Text → Text → World K → Bool × World K
    store_credential none key value w = file_store_credential key value w
    store_credential (some keyring) key value w =
        let (done, keychain) = keyring.set_password key value w.keychain in
        elim done [
          | ok _ ↦ (true, record w { keychain = keychain })
          | raised kind message ↦ file_store_credential key value (record w { keychain = keychain })
        ]

    unfoldable pub get_credential : Option (Keyring K) → Text → World K → Option Text
    get_credential none key w = file_get_credential key w
    get_credential (some keyring) key w = elim (keyring.get_password key w.keychain) [
      | ok value ↦ elim value [ none ↦ file_get_credential key w | some value ↦ some value ]
      | raised kind message ↦ file_get_credential key w
    ]

    unfoldable pub delete_credential : Option (Keyring K) → Text → World K → Bool × World K
    delete_credential none key w = (true, file_delete_credential key w)
    delete_credential (some keyring) key w =
        let (done, keychain) = keyring.delete_password key w.keychain in
        elim done [
          | deleted ↦ (true, record w { keychain = keychain })
          | already_gone ↦ (true, record w { keychain = keychain })
          | delete_failed ↦ (true, file_delete_credential key (record w { keychain = keychain }))
        ]

    -- The key of a row, whether it counts, and what is left of the rest.
    migrate_row :
        Option (Keyring K) → Option Text → Option Text → World K → (Option Text × ℕ) × World K
    unfolding updated_key key_name provider_text
    migrate_row keyring provider none w = ((none, 0), w)
    migrate_row keyring provider (some api_key) w =
        if is_empty api_key || ends_with api_key (codes "****")
        then ((some api_key, 0), w)
        else (let (success, w') =
              store_credential keyring (key_name (provider_text provider)) api_key w in
            ((if success then (some (updated_key provider api_key), 1) else (some api_key, 0)), w'))

    -- The loop over the rows, with the new table and the count.
    unfoldable pub migrate_from_sqlite :
        Option (Keyring K) → List LlmSettings → World K → (List LlmSettings × ℕ) × World K
    unfolding migrate_row
    migrate_from_sqlite keyring [] w = (([], 0), w)
    migrate_from_sqlite keyring (row ∷ rows) w =
        let ((key, n), w') = migrate_row keyring row.provider row.api_key w in
        let ((rows', count), w'') = migrate_from_sqlite keyring rows w' in
        ((record row { api_key = key } ∷ rows', n + count), w'')
