-- ===== src/Main/Handlers/Llm/Shown.antt =====
-- What `llm_settings.get` of src/main.py shows of the keys.
use property_management_lead.Common.{◌≡◌, ◌⊎◌, List, [], ◌∷◌, Text}
use property_management_lead.Common.Value.{Value, null, str}
use property_management_lead.Credentials.Migration.{IsStarred}
use property_management_lead.Llm.Factory.{LlmSettings}
use property_management_lead.Main.Handlers.Llm.{row_fields}

-- NULL, an empty key, or a starred one.
abbrev pub IsHidden : Value → Type 0
IsHidden value =
    (value ≡ null) ⊎ ((value ≡ str []) ⊎ ((text : Text) × (value ≡ str text) × IsStarred text))

-- These rows, each with a hidden key in place of its own.
abbrev pub AllShown : List LlmSettings → List Value → Type 0
AllShown [] values = values ≡ []
AllShown (row ∷ rows) [] = ⊥
AllShown (row ∷ rows) (value ∷ values) =
    ((key : Value) × (value ≡ row_fields row key) × IsHidden key) × AllShown rows values
