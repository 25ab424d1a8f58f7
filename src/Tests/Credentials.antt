-- ===== src/Tests/Credentials.antt =====
-- Runs of src/utils/credentials.py, with a keychain that holds one value or none.
use property_management_lead.Common.{
  ◌≡◌, refl, true, Option, none, some, List, any, [], ◌∷◌, Text, codes, text_eq, ◌==◌,
  if◌then◌else◌,
}
use property_management_lead.Common.Dict.{insert}
use property_management_lead.Common.Result.{ok, raised, runtime_error}
use property_management_lead.Credentials.{
  key_name, provider_text, mask, masked_with, deleted, Keyring, World, obfuscate,
  load_fallback_store, save_fallback_store, file_store_credential, store_credential, get_credential,
  delete_credential, migrate_from_sqlite,
}
use property_management_lead.Credentials.Fallback.{
  CanWrite, get_credential-store_credential, get_credential_stale, get_credential-delete_credential,
}
use property_management_lead.Credentials.Migration.{AllMoved, migrate-AllMoved}
use property_management_lead.Llm.Factory.{LlmSettings}
use property_management_lead.Tests.Codec.{codec, codec-IsStoreCodec}

abbrev secret : Text
secret = codes "s1"

abbrev empty : World (Option Text)
empty = record { keychain = none; file = none; writable = true }

get_credential-store_credential_example :
    get_credential codec none (codes "a") (store_credential codec none (codes "a") secret empty).1
    ≡ (if codes "a" == codes "a" then some secret else get_credential codec none (codes "a") empty)
unfolding store_credential file_store_credential save_fallback_store obfuscate masked_with mask
    load_fallback_store insert
get_credential-store_credential_example =
    get_credential-store_credential codec codec-IsStoreCodec (codes "a") secret empty (codes "a")
      refl

-- It can be read and deleted from, but not written.
abbrev read_only : Keyring (Option Text)
read_only = record {
  set_password = λ key value k. (raised runtime_error (codes "locked"), k);
  get_password = λ key k. ok k;
  delete_password = λ key k. (deleted, none);
}

abbrev holding : World (Option Text)
holding = record { keychain = some (codes "old"); file = none; writable = true }

can_write : (w : World (Option Text)) → w.writable ≡ true → CanWrite codec w
can_write w e = ((λ h. cc), e)

get_credential_stale_example :
    let (done, after) = store_credential codec (some read_only) (codes "a") secret holding in
    (done ≡ true)
    × (get_credential codec none (codes "a") after ≡ some secret)
    × (get_credential codec (some read_only) (codes "a") after ≡ some (codes "old"))
get_credential_stale_example =
    get_credential_stale codec codec-IsStoreCodec read_only (codes "a") secret (codes "old") holding
      (can_write holding refl) refl refl

get_credential-delete_credential_example :
    get_credential codec
      (some read_only)
      (codes "a")
      (delete_credential codec
        (some read_only)
        (codes "a")
        (file_store_credential codec (codes "a") secret holding).1).1
    ≡ get_credential codec none
        (codes "a")
        (file_store_credential codec (codes "a") secret holding).1
unfolding file_store_credential save_fallback_store obfuscate masked_with mask load_fallback_store
    insert
get_credential-delete_credential_example =
    get_credential-delete_credential codec read_only (codes "a")
      (file_store_credential codec (codes "a") secret holding).1 refl refl

abbrev row_of : Option Text → Option Text → LlmSettings
row_of name api_key = record {
  provider = name;
  api_key = api_key;
  base_url = none;
  selected_model = codes "m";
  is_active = true;
}

abbrev rows : List LlmSettings
rows =
    row_of (some (codes "openai")) (some (codes "sk-12345"))
    ∷ row_of none (some (codes "sk-9"))
    ∷ row_of (some (codes "anthropic")) none
    ∷ []

migrate-AllMoved_example :
    AllMoved codec
      (migrate_from_sqlite codec none rows empty).1
      rows
      (migrate_from_sqlite codec none rows empty).0.0
unfolding any text_eq key_name provider_text
migrate-AllMoved_example =
    migrate-AllMoved codec codec-IsStoreCodec rows empty (can_write empty refl)
      (refl, (refl, (refl, tt)))
