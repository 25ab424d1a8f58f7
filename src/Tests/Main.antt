-- ===== src/Tests/Main.antt =====
-- Runs of src/main.py, without network, files and keychain.
use property_management_lead.Common.{
  ◌≡◌, refl, true, false, ◌||◌, Option, none, some, List, [], ◌∷◌, ◌++◌, all, take, keep, Text,
  codes, text_eq, ◌==◌, eqb, arith, if◌then◌else◌, starts_with,
}
use property_management_lead.Common.Dict.{lookup}
use property_management_lead.Common.Result.{ok}
use property_management_lead.Common.Value.{pos, Value, str, object, Fields, end, field}
use property_management_lead.Compliance.{
  no_fault, default_config, normalise_phone, strip_country_code, check_dnc,
}
use property_management_lead.Compliance.Listed.{is_number}
use property_management_lead.Database.Schema.{empty_database}
use property_management_lead.Entity.Sos.{request_error}
use property_management_lead.Hubspot.Api
use property_management_lead.Llm.Factory.{get_active_llm_client}
use property_management_lead.Llm.Providers.{openai_compatible, connection}
use property_management_lead.Llm.Providers
use property_management_lead.Main.Handlers.Compliance.Checked.{phone_params}
use property_management_lead.Main.Handlers.Llm.{llm_settings_set}
use property_management_lead.Main.Handlers.Llm.Masked.{
  openai_params, get_active_llm_client-llm_settings_set,
}
use property_management_lead.Main.Handlers.Settings.{select_value}
use property_management_lead.Main.Handlers.Settings.Stored.{key_params, row_params}
use property_management_lead.Main.Sound.{IsSound}
use property_management_lead.Main.State.{Env, Sidecar, success, response}
use property_management_lead.Main.Dispatch.{handle_command}
use property_management_lead.Main.Dispatch.RoundTrips.{
  command, dnc_answer, dnc_check-add_dnc, settings_get-settings_set,
}
use property_management_lead.Main.Start.{main}
use property_management_lead.Main.Start.Sound.{main-IsSound}
use property_management_lead.Main.Handlers.Llm.{row_of}
use property_management_lead.Tests.{ascii, python}
use property_management_lead.Tests.Codec.{codec}
use property_management_lead.Tests.Llm.{json}

abbrev set_county : Fields
set_county = field (codes "id") (str (codes "1")) (
    field (codes "method") (str (codes "settings.set"))
      (field (codes "params") (object (row_params (codes "target_county") (codes "Kern"))) end))

abbrev env : Env (Option Text)
env = record {
  runtime = python;
  same = eqb;
  json = record json {
    loads = λ s. if s == codes "{...}" then ok (object set_county) else json.loads s;
  };
  dumps_rows = λ rows. codes "[...]";
  codec = codec;
  keyring = none;
  arithmetic = record {
    times = λ a b. ok a;
    plus = λ a b. ok a;
    minus = λ a b. ok a;
    round_to = λ a n. ok a;
  };
  migrations = [];
  db_file = ok none;
  uptime = pos 3;
  files = record {
    resolve = λ path. ok path;
    parts = λ path. path ∷ [];
    is_file = λ path. ok false;
    open_csv = λ path. record { exists = false; fieldnames = none; rows = ok [] };
  };
  sos = record {
    runtime = python;
    post = λ name. request_error (codes "offline");
    download = λ url. request_error (codes "offline");
  };
  llm_post = λ request. Providers.request_error (codes "offline");
  hubspot_post = λ key inputs. Api.request_error (codes "offline");
  now = 0;
  later = 0;
  state_id = codes "17";
  dnc_fault = no_fault;
  real_text = λ repr. some repr;
  is_encodable = λ s. true;
}

abbrev started : Sidecar (Option Text)
started = record {
  database = empty_database;
  world = record { keychain = none; file = none; writable = true };
  output = [];
}

abbrev lines : List (Env (Option Text) × Text)
lines = (env, codes "{...}") ∷ (env, codes " ") ∷ (env, codes "{") ∷ []

empty-IsSound : IsSound ascii empty_database
unfolding lookup all
empty-IsSound = record {
  settings = tt;
  dnc_list = record { nodup = tt; numbers = λ phone source h. cc };
  tables = record { nodup = tt; owned = tt };
  llm_settings = record { checked = refl; unique = tt };
  sessions = tt;
}

main-IsSound_example : IsSound ascii (main env lines started).1.database
main-IsSound_example =
    main-IsSound ascii env lines started (refl, tt) ((refl, tt), ((refl, tt), ((refl, tt), tt)))
      empty-IsSound

settings_get-settings_set_example :
    (handle_command env
      (command (str (codes "2")) (codes "settings.get") (key_params (codes "target_state")))
      (handle_command env
        (command
          (str (codes "1"))
          (codes "settings.set")
          (row_params (codes "target_state") (codes "NV")))
        started).1).0
    ≡ response (str (codes "2")) (
        success (
          object (
            field
              (codes "value")
              (if codes "target_state" == codes "target_state"
                then str (codes "NV")
                else select_value [] (some (codes "target_state")))
              end)))
settings_get-settings_set_example =
    settings_get-settings_set env env started (str (codes "1")) (str (codes "2"))
      (codes "target_state") (codes "NV") (codes "target_state") refl refl refl refl refl

dnc_check-add_dnc_example :
    (handle_command env
      (command
        (str (codes "2"))
        (codes "compliance.dnc_check")
        (phone_params (codes "1-714-555-0123")))
      (handle_command env
        (command
          (str (codes "1"))
          (codes "compliance.add_dnc")
          (phone_params (codes "(714) 555-0123")))
        started).1).0
    ≡ dnc_answer (str (codes "2")) (
        check_dnc ascii (codes "1-714-555-0123") (some default_config) (some [])
        || is_number (normalise_phone ascii (codes "1-714-555-0123")) (codes "7145550123"))
unfolding normalise_phone strip_country_code starts_with keep
dnc_check-add_dnc_example =
    dnc_check-add_dnc env env started (str (codes "1")) (str (codes "2")) (codes "(714) 555-0123")
      (codes "1-714-555-0123") refl refl refl refl refl refl

get_active_llm_client-llm_settings_set_example :
    get_active_llm_client
      (llm_settings_set env
        (object (openai_params (codes "sk-12345") (codes "gpt-4o")))
        started).1.database.llm_settings
    ≡ ok (
        openai_compatible (
          connection
            (take 4 (codes "sk-12345") ++ codes "****")
            (codes "gpt-4o")
            (codes "https://api.openai.com/v1")))
unfolding keep
get_active_llm_client-llm_settings_set_example =
    get_active_llm_client-llm_settings_set env (codes "sk-12345") (codes "gpt-4o") started refl refl
      refl refl (omega arith) refl

abbrev with_key : Sidecar (Option Text)
with_key = record started {
  database = record empty_database {
    llm_settings =
        row_of (some (codes "openai")) (some (codes "sk-12345")) none (codes "gpt-4o") true ∷ [];
  };
}
