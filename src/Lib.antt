-- ===== src/Lib.antt =====
-- Verification of the Python program of this repository: the lead generation sidecar that the
-- desktop shell starts. It imports property records, looks parcels up at county servers, checks
-- phone numbers against a Do-Not-Call list, and exports leads to files and to HubSpot.
--
-- The parts, and the files that model them:
--   Common         Python values, dicts, exceptions, quoting and texts. A dict is an association
--                  list in insertion order. What the model takes from Python's own library is the
--                  record Runtime: the Unicode tables, str(), int(), the integer a float equals.
--   Compliance     src/compliance/dnc_checker.py: normalise_phone, check_dnc, add_dnc_number and
--                  remove_dnc_number over the table dnc_list; SQLite may raise at execute or commit.
--   RateLimiter    src/utils/rate_limiter.py: the class RateLimiter as a record, its methods as
--                  functions from the record to the record. The clock and the jitter are arguments.
--   Hubspot        src/utils/hubspot_client/__init__.py: Window is _wait_if_needed, Mapping is
--                  map_lead_to_hubspot_properties, Api is batch_upsert and _parse_error,
--                  Contact is upsert_contact. The answer to a payload is an argument.
--   Leads          src/agents/output_synthesis.py: deduplicate, the CSV and JSON exports, and in
--                  Leads/Export export_to_hubspot, which calls Hubspot.Mapping and Hubspot.Api.
--                  The quoting of Python's csv writer is written out.
--   County         src/scrapers/county_assessor.py: Where is the validation and escaping of the
--                  query's inputs, Query is _arcgis_query over RateLimiter, Search the public calls,
--                  Assessed the assessed value.
--                  The server's answer to each attempt is an argument.
--   Discovery      src/agents/discovery.py with the column map of src/utils/csv_import.py: Columns
--                  is the detection of CSV formats, Address the comparison of addresses, Apn is
--                  normalize_apn, Save the writes to the tables of src/db/schema.py.
--   Router         src/ipc_router.py: the class IpcRouter; a handler is a function of the parameters
--                  and the shared state.
--   Credentials    src/utils/credentials.py: the keychain, the obfuscated file behind it, and the
--                  migration of keys out of SQLite. keyring, JSON, UTF-8 and base64 are arguments.
--   Captcha        src/captcha/handler.py: blocked pages, and the table of saved browser sessions.
--                  What Playwright gives of a page and JSON are arguments.
--   Llm            src/llm: Fences is strip_json_fences of base.py, Providers the classes of
--                  anthropic_provider.py and openai_compatible.py, Factory is factory.py over the
--                  table llm_settings. The server's reply to a request and JSON are arguments.
--   Logging        src/utils/logging.py: Recent is the class RecentLogBuffer, Crash the reports, the
--                  exception hook and setup_logging.
--   Database       src/db: Schema is schema.py, with all tables as one record, which it takes from
--                  the components that write them; Migrations is migrations.py.
--   Entity         Patterns and Owner are the names of owners in src/agents/entity_unmasking.py, with
--                  the regular expressions as lists of characters; Sos is its look-up and
--                  src/scrapers/ca_sos_parser.py. httpx, pypdf and the language model are arguments.
--   Market         src/agents/market_intelligence.py; arithmetic on floats is an argument.
--   Main           src/main.py: State is what the program keeps and what is outside of it, Handlers
--                  has the methods of _handle_command, each over the components above, Dispatch is
--                  _handle_command itself and the loop over stdin, and Start what main does before.
--   Tests          runs at concrete inputs, with Python's library on ASCII.
--
-- Bounds and fuel: times are whole ticks, a billion to a second, so that the rounding of floats is
-- left out. The attempts of a county query recurse on the number that is left, which starts at
-- 1 + MAX_RETRIES as in the source; every other loop is a recursion over its list. Texts are lists
-- of code points without bound. An integer of SQLite has 64 bits with sign.
--
-- Not modelled: log lines; time stamps of rows; the JSON text that json.dumps writes (an argument);
-- answers of HubSpot that are JSON but no object; a credential file whose JSON is no object of
-- texts; normalize_address and parse_csv_file; rows of settings whose key is NULL,
-- which no query finds; of src/main.py the watchdog of the parent process, and the signal handlers;
-- the placeholders of src/scrapers/rental_listings.py; the frontend and the desktop shell, which are
-- other languages.
mod Tests
pub mod Common
pub mod Discovery
pub mod County
pub mod Hubspot
pub mod Leads
pub mod RateLimiter
pub mod Compliance
pub mod Router
pub mod Credentials
pub mod Captcha
pub mod Llm
pub mod Logging
pub mod Database
pub mod Entity
pub mod Market
pub mod Main
