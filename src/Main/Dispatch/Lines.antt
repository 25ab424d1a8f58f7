-- ===== src/Main/Dispatch/Lines.antt =====
-- What the loop of src/main.py answers to each line.
use property_management_lead.Common.{
  ◌≡◌, ◌≢◌, true, false, Option, none, some, List, [], ◌∷◌, strip, Text, codes, text_eq, is_empty,
}
use property_management_lead.Common.Result.{Result, ok, raised, json_decode_error}
use property_management_lead.Common.Value.{Value, null, object, entries, get}
use property_management_lead.Main.Coded.{IsAnswer, IsCoded}
use property_management_lead.Main.State.{Env, Sidecar, Answer, response}
use property_management_lead.Main.Dispatch.{Handler}

abbrev AllCoded : {K : Type 0} → Handler K → Type 0
AllCoded {K} handler = (params : Value) (s : Sidecar K) → IsCoded (handler params s).0

-- The id of a command, None where the line is no object.
abbrev pub id_of : Result Value → Value
id_of (ok (object fields)) = get (entries fields) (codes "id") null
id_of read = null

-- A response under this id: a result, or an error with one of the codes.
abbrev pub IsResponse : Value → Value → Type 0
IsResponse id value = (answer : Answer) × (value ≡ response id answer) × IsAnswer answer

module _ {K : Type 0} (env : Env K) where
  -- What `loads` gives the loop: a value, or a JSONDecodeError, but no other exception.
  abbrev pub IsRead : Result Value → Type 0
  IsRead (ok value) = Unit
  IsRead (raised kind message) = kind ≡ json_decode_error

  -- A response to what was read, or the exception that ends the loop.
  abbrev Responds : Result Value → Result Value → Type 0
  Responds read (ok value) = IsRead read × IsResponse (id_of read) value
  Responds read (raised kind message) = (read ≡ raised kind message) × (kind ≢ json_decode_error)

  abbrev pub text_of : Text → Text
  text_of line = strip env.runtime.unicode.is_space line

  -- What a line is answered: nothing if it is blank, and otherwise one response.
  abbrev pub IsAnswered : Text → Option Value → Type 0
  IsAnswered line none = is_empty (text_of line) ≡ true
  IsAnswered line (some value) =
      (is_empty (text_of line) ≡ false)
      × (IsRead (env.json.loads (text_of line))
          × IsResponse (id_of (env.json.loads (text_of line))) value)

  -- A line that ends the loop: `loads` raises something else than a JSONDecodeError.
  abbrev pub IsEnd : Text → Result (Unit {0}) → Type 0
  IsEnd line (ok done) = ⊥
  IsEnd line (raised kind message) =
      (is_empty (text_of line) ≡ false)
      × ((env.json.loads (text_of line) ≡ raised kind message) × (kind ≢ json_decode_error))

  -- What becomes of a line.
  abbrev IsTurn : Text → Result (Option Value) → Type 0
  IsTurn line (ok answer) = IsAnswered line answer
  IsTurn line (raised kind message) = IsEnd line (raised kind message)

-- Each line with its answer, in order, up to the end or the line that ended the loop.
abbrev pub AllAnswered :
    {K : Type 0} → List (Env K × Text) → List (Option Value) → Result (Unit {0}) → Type 0
AllAnswered [] answers ending = (answers ≡ []) × (ending ≡ ok tt)
AllAnswered ((env, line) ∷ lines) [] ending = IsEnd env line ending
AllAnswered ((env, line) ∷ lines) (answer ∷ answers) ending =
    IsAnswered env line answer × AllAnswered lines answers ending
