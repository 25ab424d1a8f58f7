-- ===== src/Tests/Router.antt =====
-- Runs of src/ipc_router.py.
use property_management_lead.Common.{◌≡◌, refl, List, [], ◌∷◌, Text, codes, text_eq}
use property_management_lead.Common.Dict.{lookup}
use property_management_lead.Common.Result.{ok, raised, runtime_error}
use property_management_lead.Common.Value.{null, str, int, pos, object, end, Object, get}
use property_management_lead.Router.{Handler, handle}
use property_management_lead.Router.Dispatch.{register_all, expected, handle-register_all}
use property_management_lead.Tests.{python}

abbrev failing : Handler Text
failing params shared = (raised runtime_error (codes "no database"), shared)

abbrev cmd : Object
cmd = (codes "id", int (pos 7)) ∷ (codes "method", str (codes "ping")) ∷ []

abbrev silent : Handler Text
silent params shared = (ok null, shared)

abbrev routes : List (Text × Handler Text)
routes = (codes "pong", silent) ∷ (codes "ping", failing) ∷ (codes "ping", silent) ∷ []

handle-register_all_example :
    (handle python (register_all python routes (record { handlers = []; shared = [] })) cmd).0
    ≡ ok (expected python (int (pos 7)) (codes "ping") (object end) [] routes)
unfolding get lookup text_eq
handle-register_all_example = handle-register_all python routes [] cmd refl
