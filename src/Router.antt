-- ===== src/Router.antt =====
-- src/ipc_router.py: commands routed to registered handlers. A handler takes the parameters and the
-- shared state, which it may change; the values of the shared state are of any type.
pub mod Dispatch
use property_management_lead.Common.{
  ◌≡◌, Option, none, some, List, [], ◌∷◌, ◌++◌, Text, codes, text_eq,
}
use property_management_lead.Common.Dict.{Dict, lookup, insert}
use property_management_lead.Common.Result.{Result, ok, raised, type_error, ◌>>=◌}
use property_management_lead.Common.Value.{
  ℤ, negsuc, Value, null, str, object, end, Object, get, Runtime, Key, str_key, key_eq, key_of,
}

abbrev pub err_validation : ℤ
err_validation = negsuc 31_999

abbrev pub err_execution : ℤ
err_execution = negsuc 32_000

abbrev pub err_not_found : ℤ
err_not_found = negsuc 32_001

pub record Error : Type 0 where
  pub message : Text
  pub code : ℤ

-- The keys "id", "result" and "error" of a response; no error is None.
pub record Response : Type 0 where
  pub id : Value
  pub result : Value
  pub error : Option Error

abbrev pub success_response : Value → Value → Response
success_response req_id value = record { id = req_id; result = value; error = none }

abbrev pub error_response : Value → Text → ℤ → Response
error_response req_id message code = record {
  id = req_id;
  result = null;
  error = some (record { message = message; code = code });
}

-- The response to what a handler returned or raised.
pub answer : Value → Result Value → Response
answer req_id (ok result) = success_response req_id result
answer req_id (raised kind message) = error_response req_id message err_execution

abbrev pub Handler : Type 0 → Type 0
Handler S = Value → Dict Text S → Result Value × Dict Text S

pub record IpcRouter (S : Type 0) : Type 0 where
  pub handlers : Dict Key (Handler S)
  pub shared : Dict Text S

module _ {S : Type 0} where
  abbrev pub new_router : IpcRouter S
  new_router = record { handlers = []; shared = [] }

  unfoldable pub register : IpcRouter S → Text → Handler S → IpcRouter S
  register router method handler = record router {
    handlers = insert (str_key method) handler router.handlers;
  }

  unfoldable pub set_shared : IpcRouter S → Text → S → IpcRouter S
  set_shared router key value = record router { shared = insert key value router.shared }

  respond :
      Runtime → Value → Value → Value → Dict Text S → Option (Handler S) → Response × Dict Text S
  unfolding answer
  respond runtime req_id method params shared none = (
    error_response req_id (codes "Unknown method: " ++ runtime.to_str method) err_not_found,
    shared,
  )
  respond runtime req_id method params shared (some handler) =
      let (result, shared') = handler params shared in (answer req_id result, shared')

  -- A method that is a list or a dict raises outside the `try`.
  unfoldable pub handle : Runtime → IpcRouter S → Object → Result Response × IpcRouter S
  unfolding respond
  handle runtime router cmd = elim (key_of runtime (get cmd (codes "method") (str []))) [
    | none ↦ (raised type_error (codes "unhashable type"), router)
    | some method ↦
        let (response, shared) =
          respond runtime (get cmd (codes "id") null) (get cmd (codes "method") (str []))
            (get cmd (codes "params") (object end)) router.shared (lookup method router.handlers) in
        (ok response, record router { shared = shared })
  ]
