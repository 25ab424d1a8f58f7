-- ===== src/Main/Dispatch/Sound.antt =====
-- Every command of src/main.py keeps the tables well-formed.
use property_management_lead.Common.{
  ℕ, ◌≡◌, subst, Option, some, List, [], ◌∷◌, All, strip, Text, text_eq, is_empty, Unicode,
  Bool-cases, Option-cases, inl, inr,
}
use property_management_lead.Common.Dict.{lookup-All}
use property_management_lead.Common.Result.{Result, ok, raised, json_decode_error}
use property_management_lead.Common.Value.{Value, str, object}
use property_management_lead.Database.Migrations.{Migration}
use property_management_lead.Main.Handlers.System.Sound.{schema_apply-Keeps}
use property_management_lead.Main.Handlers.Agents.Sound.{import_csv-Keeps}
use property_management_lead.Main.Handlers.Compliance.Sound.{add_dnc-Keeps, remove_dnc-Keeps}
use property_management_lead.Main.Handlers.Captcha.Sound.{emit_event-Keeps}
use property_management_lead.Main.Handlers.Llm.Sound.{llm_settings_set-Keeps}
use property_management_lead.Main.Handlers.Settings.Sound.{settings_set-Keeps}
use property_management_lead.Main.Sound.{IsSound, KeepsSound, Keeps, IsFair}
use property_management_lead.Main.State.{Env, Sidecar}
use property_management_lead.Main.Dispatch.{
  Handler, methods, handler_of, handled, handle_command, respond, printed, answer_line, Served,
  then_serve, run,
}

abbrev KeepsAll : {K : Type 0} → Unicode → Handler K → Type 0
KeepsAll unicode handler = (params : Value) → Keeps unicode (handler params)

module _ {K : Type 0} (env : Env K)
    (migrations : All
      (λ (m : ℕ × Migration). KeepsSound env.runtime.unicode m.1)
      env.migrations) where
  methods-Keeps :
      All (λ (entry : Text × Handler K). KeepsAll env.runtime.unicode entry.1) (methods env)
  unfolding methods
  methods-Keeps = (
    (λ params s h. h),
    (
      (λ params s h. h),
      (
        (λ params. schema_apply-Keeps env migrations),
        (
          import_csv-Keeps env,
          (
            (λ params s h. h),
            (
              (λ params s h. h),
              (
                (λ params s h. h),
                (
                  (λ params s h. h),
                  (
                    (λ params s h. h),
                    (
                      (λ params s h. h),
                      (
                        (λ params s h. h),
                        (
                          add_dnc-Keeps env,
                          (
                            remove_dnc-Keeps env,
                            (
                              (λ params s h. h),
                              (
                                emit_event-Keeps env,
                                (
                                  llm_settings_set-Keeps env,
                                  (
                                    (λ params s h. h),
                                    ((λ params s h. h), (settings_set-Keeps env, tt)),
                                  ),
                                ),
                              ),
                            ),
                          ),
                        ),
                      ),
                    ),
                  ),
                ),
              ),
            ),
          ),
        ),
      ),
    ),
  )

  handler_of-Keeps :
      (method : Value) {handler : Handler K}
      → handler_of env method ≡ some handler
      → KeepsAll env.runtime.unicode handler
  unfolding handler_of
  handler_of-Keeps (str method) e =
      lookup-All (KeepsAll env.runtime.unicode) (methods env) method methods-Keeps e
  handler_of-Keeps method e = cc

  handled-IsSound :
      (method params : Value) (s : Sidecar K)
      → IsSound env.runtime.unicode s.database
      → IsSound env.runtime.unicode (handled env method params s).1.database
  unfolding handled
  handled-IsSound method params s h = elim (Option-cases (handler_of env method)) [
    | inl e ↦ rw (handled, e) h
    | inr (handler, e) ↦ rw (handled, e) (handler_of-Keeps method e params s h)
  ]

  respond-IsSound :
      (read : Result Value) (s : Sidecar K)
      → IsSound env.runtime.unicode s.database
      → IsSound env.runtime.unicode (respond env read s).1.database
  unfolding respond handle_command
  respond-IsSound (raised json_decode_error message) s h = h
  respond-IsSound (raised kind message) s h = h
  respond-IsSound (ok (object fields)) s h = handled-IsSound _ _ s h
  respond-IsSound (ok value) s h = h

  printed-IsSound :
      (answered : Result Value × Sidecar K)
      → IsSound env.runtime.unicode answered.1.database
      → IsSound env.runtime.unicode (printed env answered).1.database
  unfolding printed
  printed-IsSound (raised kind message, s) h = h
  printed-IsSound (ok answer, s) h = h

  answer_line-IsSound :
      (line : Text) (s : Sidecar K)
      → IsSound env.runtime.unicode s.database
      → IsSound env.runtime.unicode (answer_line env line s).1.database
  unfolding answer_line
  answer_line-IsSound line s h =
      elim (Bool-cases (is_empty (strip env.runtime.unicode.is_space line))) [
        | inl e ↦ rw e h
        | inr e ↦ rw e (printed-IsSound (respond env _ s) (respond-IsSound _ s h))
      ]

then_serve-IsSound :
    {K : Type 0} (unicode : Unicode) (answered : Result (Option Value) × Sidecar K)
    (rest : Served K)
    → IsSound unicode answered.1.database
    → IsSound unicode rest.1.database
    → IsSound unicode (then_serve answered rest).1.database
unfolding then_serve
then_serve-IsSound unicode (raised kind message, s) rest h k = h
then_serve-IsSound unicode (ok answer, s) ((answers, ending), s') h k = k

-- Whatever lines are read, and whatever is met outside while they are answered, well-formed tables
-- stay so: no setting, session or provider twice, only providers that the schema allows, a
-- Do-Not-Call list of normal numbers each listed once, and properties and owners that fit together;
-- as long as the migrations keep them so and Python's tables of characters stay the same.
pub run-IsSound :
    {K : Type 0} (unicode : Unicode) (lines : List (Env K × Text)) (s : Sidecar K)
    → All (λ (line : Env K × Text). IsFair unicode line.0) lines
    → IsSound unicode s.database
    → IsSound unicode (run lines s).1.database
unfolding run
run-IsSound unicode [] s fair h = h
run-IsSound unicode ((env, line) ∷ lines) s ((same, migrations), fair) h =
    let kept : IsSound unicode (answer_line env line s).1.database =
      subst
        (λ u.
          All (λ (m : ℕ × Migration). KeepsSound u m.1) env.migrations
          → IsSound u s.database
          → IsSound u (answer_line env line s).1.database)
        same (λ k. answer_line-IsSound env k line s) migrations h in
    then_serve-IsSound unicode (answer_line env line s) _ kept
      (run-IsSound unicode lines _ fair kept)
