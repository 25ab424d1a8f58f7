-- ===== src/Router/Dispatch.antt =====
-- What `handle` of src/ipc_router.py answers.
use property_management_lead.Common.{
  ◌≡◌, ◌≢◌, refl, sym, ap, ◌∙◌, inl, inr, false, none, some, List, [], ◌∷◌, ◌++◌, Text, codes,
  text_eq, arith, ◌==◌, eq_iff, eq_refl, Bool-cases, if◌then◌else◌,
}
use property_management_lead.Common.Dict.{Dict, lookup, lookup-nil, lookup-insert}
use property_management_lead.Common.Result.{Result, ok, raised}
use property_management_lead.Common.Value.{
  negsuc, Value, null, str, object, end, Object, get, Runtime, Key, str_key, key_eq, key_of,
}
use property_management_lead.Router.{
  Response, Handler, IpcRouter, register, answer, respond, handle,
}

-- The response under this id to what a handler returned or raised.
abbrev pub returned : Value → Result Value → Response
returned id (ok result) = record { id = id; result = result; error = none }
returned id (raised kind message) = record {
  id = id;
  result = null;
  error = some (record { message = message; code = negsuc 32_000 });
}

answer-returned : (id : Value) (result : Result Value) → answer id result ≡ returned id result
unfolding answer
answer-returned id (ok result) = refl
answer-returned id (raised kind message) = refl

text_of : Key → Text
text_of (str_key s) = s
text_of key = []

str_key-injective : (s t : Text) → str_key s ≡ str_key t → s ≡ t
unfolding text_of
str_key-injective s t e = ap text_of e

module _ {S : Type 0} (runtime : Runtime) where
  handle-respond :
      (router : IpcRouter S) (method : Text) (cmd : Object)
      → get cmd (codes "method") (str []) ≡ str method
      → (handle runtime router cmd).0
        ≡ ok
            (respond runtime
              (get cmd (codes "id") null)
              (get cmd (codes "method") (str []))
              (get cmd (codes "params") (object end))
              router.shared
              (lookup (str_key method) router.handlers)).0
  unfolding handle key_of
  handle-respond router method cmd named =
      let keyed : key_of runtime (get cmd (codes "method") (str [])) ≡ some (str_key method) =
        rw named refl in
      rw (handle, keyed) refl

  -- A handler that is registered answers the commands with its method, in place of any earlier
  -- one, from the parameters and the shared state.
  handle-register :
      (router : IpcRouter S) (method : Text) (handler : Handler S) (cmd : Object)
      → get cmd (codes "method") (str []) ≡ str method
      → (handle runtime (register router method handler) cmd).0
        ≡ ok (
            answer
              (get cmd (codes "id") null)
              (handler (get cmd (codes "params") (object end)) router.shared).0)
  unfolding register respond
  handle-register router method handler cmd named =
      handle-respond (register router method handler) method cmd named
      ∙ rw
          (
            lookup-insert (str_key method) (str_key method) handler router.handlers,
            eq_refl (str_key method),
          )
          refl

  -- Registering a handler changes no answer to a command with another method.
  handle-register_other :
      (router : IpcRouter S) (method other : Text) (handler : Handler S) (cmd : Object)
      → get cmd (codes "method") (str []) ≡ str other
      → other ≢ method
      → (handle runtime (register router method handler) cmd).0 ≡ (handle runtime router cmd).0
  unfolding register
  handle-register_other router method other handler cmd named distinct =
      let apart : (str_key other == str_key method) ≡ false = ground (
        arith,
        eq_iff (str_key other) (str_key method),
        distinct,
        str_key-injective other method,
      ) in
      handle-respond (register router method handler) other cmd named
      ∙ rw (lookup-insert (str_key other) (str_key method) handler router.handlers, apart)
          (sym (handle-respond router other cmd named))

  -- The handlers as they are registered, the first of the list last.
  unfoldable pub register_all : List (Text × Handler S) → IpcRouter S → IpcRouter S
  register_all [] router = router
  register_all ((method, handler) ∷ routes) router =
      register (register_all routes router) method handler

  -- The response of a router with these handlers: with the result of the handler that was registered
  -- last under the method, or with the code -32001 and the message of what it raised, and without
  -- such a handler with the code -32002.
  abbrev pub expected : Value → Text → Value → Dict Text S → List (Text × Handler S) → Response
  expected id method params shared [] = record {
    id = id;
    result = null;
    error = some (record {
      message = codes "Unknown method: " ++ runtime.to_str (str method);
      code = negsuc 32_001;
    });
  }
  expected id method params shared ((name, handler) ∷ routes) =
      if method == name
      then returned id (handler params shared).0
      else expected id method params shared routes

  register_all-shared :
      (routes : List (Text × Handler S)) (router : IpcRouter S)
      → (register_all routes router).shared ≡ router.shared
  unfolding register_all register
  register_all-shared [] router = refl
  register_all-shared ((method, handler) ∷ routes) router = register_all-shared routes router

  -- A router to which any handlers were registered, over any shared state, answers a command whose
  -- method is a text: under the command's id, with the result of the handler that was registered
  -- last under that method; where this raised, with ERR_EXECUTION and its message; and where there
  -- is none, with ERR_NOT_FOUND.
  pub handle-register_all :
      (routes : List (Text × Handler S)) (shared : Dict Text S) (cmd : Object) {method : Text}
      → get cmd (codes "method") (str []) ≡ str method
      → (handle runtime (register_all routes (record { handlers = []; shared = shared })) cmd).0
        ≡ ok (
            expected
              (get cmd (codes "id") null)
              method
              (get cmd (codes "params") (object end))
              shared
              routes)
  unfolding register_all respond
  handle-register_all [] shared cmd {method} named =
      handle-respond (record { handlers = []; shared = shared }) method cmd named
      ∙ rw (named, lookup-nil) refl
  handle-register_all ((name, handler) ∷ routes) shared cmd {method} named =
      let before = register_all routes (record { handlers = []; shared = shared }) in
      elim (Bool-cases (method == name)) [
        | inl same ↦ rw same (
            handle-register before name handler cmd (named ∙ ap str ((eq_iff method name).0 same))
            ∙ rw (register_all-shared routes (record { handlers = []; shared = shared })) (
                ap ok (
                  answer-returned (get cmd (codes "id") null)
                    (handler (get cmd (codes "params") (object end)) shared).0)))
        | inr apart ↦ rw apart (
            handle-register_other before name method handler cmd named
              (λ e. ground (arith, e, apart, eq_refl method))
            ∙ handle-register_all routes shared cmd named)
      ]
