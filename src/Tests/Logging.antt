-- ===== src/Tests/Logging.antt =====
-- Runs of src/utils/logging.py, with texts as log records.
use property_management_lead.Common.{
  ◌≡◌, ℕ, Bool, true, false, none, List, [], ◌∷◌, ◌++◌, map, Text, codes,
}
use property_management_lead.Logging.Recent.{
  Call, emitted, cleared, new, run, get_recent, last, logged, get_recent-run,
}
use property_management_lead.Logging.Crash.{
  Crash, system_hook, Logging, Surroundings, run_hook, set_ups, copies, reports, run_hook-set_ups,
}
use property_management_lead.Tests.{python}

abbrev calls : List (Call Text)
calls = emitted (codes "a") ∷ cleared ∷ emitted (codes "b") ∷ emitted (codes "c") ∷ []

get_recent-run_example :
    get_recent (λ line. line) (run calls (new 1)) ≡ map (λ line. line) (last 1 (logged [] calls))
get_recent-run_example = get_recent-run 1 calls (λ line. line)

abbrev env : Surroundings Text
env = record {
  runtime = python;
  is_directory_made = true;
  is_file_written = true;
  timestamp = codes "20260101T000000Z";
  format = λ line. line;
  has_json_logger = false;
}

abbrev failure : Crash
failure = record {
  type_name = codes "ValueError";
  message = codes "bad";
  traceback = codes "line 1" ∷ [];
  is_keyboard_interrupt = false;
}

abbrev fresh : Logging Text
fresh = record { root_level = 30; handlers = []; recent_buffer = none; excepthook = system_hook }

abbrev twice : List (ℕ × (Bool × Text))
twice = (20, (true, codes "a.log")) ∷ (10, (false, codes "b.log")) ∷ []

run_hook-set_ups_example :
    run_hook env none (set_ups env twice fresh).excepthook failure
    ≡ copies 2 (reports env none failure) ++ run_hook env none system_hook failure
run_hook-set_ups_example = run_hook-set_ups env none failure twice fresh
