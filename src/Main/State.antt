-- ===== src/Main/State.antt =====
-- The sidecar's state, what it takes from outside during a command, and its answers (src/main.py).
use property_management_lead.Common.{
  ℕ, Bool, true, false, Option, none, some, List, ◌++◌, Text, codes, text_eq, if◌then◌else◌,
}
use property_management_lead.Common.Result.{
  value_error, database_error, overflow_error, Result, ok, raised,
}
use property_management_lead.Common.Value.{
  ℤ, negsuc, Value, null, bool, int, float, str, object, end, field, Object, Runtime,
}
use property_management_lead.Common.Json.{Json, type_name}
use property_management_lead.Compliance.{Fault}
use property_management_lead.Credentials.{Codec, Keyring, World}
use property_management_lead.Database.Schema.{Database}
use property_management_lead.Database.Migrations.{Migration}
use property_management_lead.Discovery.Columns.{Row}
use property_management_lead.Discovery.Save.{fits}
use property_management_lead.Entity.Sos.{SosWeb}
use property_management_lead.Hubspot.Api.{Input}
use property_management_lead.Hubspot.Api
use property_management_lead.Llm.Providers.{Request}
use property_management_lead.Llm.Providers
use property_management_lead.Market.{Arithmetic}

-- The database on its connection, the keychain with its fallback file, and what was written to
-- stdout by the handlers.
pub record Sidecar (K : Type 0) : Type 0 where
  pub database : Database
  pub world : World K
  pub output : List Text

-- `csv.DictReader` on a file: its field names, None for an empty file, and its rows.
pub record CsvFile : Type 0 where
  pub exists : Bool
  pub fieldnames : Option (List Text)
  pub rows : Result (List Row)

-- `pathlib` and the files.
pub record Files : Type 0 where
  pub resolve : Text → Result Text
  pub parts : Text → List Text
  pub is_file : Text → Result Bool
  pub open_csv : Text → CsvFile

-- What a command meets outside of the sidecar.
pub record Env (K : Type 0) : Type 0 where
  pub runtime : Runtime
  -- how `re.IGNORECASE` compares characters
  pub same : ℕ → ℕ → Bool
  pub json : Json
  -- `json.dumps(rows, indent=2, default=str)`
  pub dumps_rows : List Object → Text
  pub codec : Codec
  pub keyring : Option (Keyring K)
  pub arithmetic : Arithmetic
  pub migrations : List (ℕ × Migration)
  -- the size of the database file, if it exists
  pub db_file : Result (Option ℕ)
  -- `int(time.time() - _start_time)`
  pub uptime : ℤ
  pub files : Files
  pub sos : SosWeb
  pub llm_post : Request → Providers.Reply
  pub hubspot_post : Text → List Input → Api.Reply
  -- the clock before and after a wait of the HubSpot client
  pub now : ℕ
  pub later : ℕ
  -- `uuid.uuid4()`
  pub state_id : Text
  pub dnc_fault : Fault
  -- the text that SQLite makes of a float in a column of texts; NaN is NULL
  pub real_text : Text → Option Text
  -- whether a text can be encoded in UTF-8
  pub is_encodable : Text → Bool

pub data Answer : Type 0 where
  success : Value → Answer
  failure : Text → ℤ → Answer

abbrev pub err_auth : ℤ
err_auth = negsuc 9999

abbrev pub err_ratelimit : ℤ
err_ratelimit = negsuc 19999

abbrev pub err_internal : ℤ
err_internal = negsuc 39999

abbrev pub err_validation : ℤ
err_validation = negsuc 49999

abbrev pub err_unknown_method : ℤ
err_unknown_method = negsuc 59999

-- `_error_response` and `_success_response`
unfoldable pub response : Value → Answer → Value
response id (success result) = object (
    field (codes "jsonrpc") (str (codes "2.0"))
      (field (codes "id") id (field (codes "result") result end)))
response id (failure message code) = object (
    field (codes "jsonrpc") (str (codes "2.0")) (
      field (codes "id") id (
        field (codes "error")
          (object (field (codes "code") (int code) (field (codes "message") (str message) end)))
          end)))

-- A handler that may raise, and leaves what it did before that.
abbrev pub Action : Type 0 → Type 0 → Type 0
Action K A = Sidecar K → Result A × Sidecar K

-- A handler that reads the state at most.
abbrev pub Query : Type 0 → Type 0
Query K = Sidecar K → Result Answer

-- A parameter that is bound where a column holds texts: what is no text takes its affinity.
unfoldable pub sql_text : {K : Type 0} → Env K → Value → Result (Option Text)
unfolding fits type_name
sql_text env null = ok none
sql_text env (bool true) = ok (some (codes "1"))
sql_text env (bool false) = ok (some (codes "0"))
sql_text env (int z) =
    if fits (some z)
    then ok (some (env.runtime.to_str (int z)))
    else raised overflow_error (codes "Python int too large to convert to SQLite INTEGER")
sql_text env (float repr) = ok (env.real_text repr)
sql_text env (str s) =
    if env.is_encodable s then ok (some s) else raised value_error (codes "surrogates not allowed")
sql_text env value =
    raised database_error
      (codes "Error binding parameter: type '" ++ (type_name value ++ codes "' is not supported"))
