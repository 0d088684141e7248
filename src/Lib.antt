-- ===== src/Lib.antt =====
-- lua-mongodb: the Python tooling that governs the development of the driver.
--
-- The repository holds a MongoDB driver in Lua and, in Python, the programs that decide what may be
-- worked on and what may be merged. This library models these of them:
-- - `planning/update_plan.py`, which validates the roadmap, records the progress of its activities, checks
--   the commit history and inspects the pinned references;
-- - `planning/update_references.py`, which moves the pin of a reference and says what a new commit changes;
-- - `planning/update_readme_compatibility.py`, which writes the table of the README from the evidence;
-- - `planning/update_spec_artifacts.py`, which runs the generators one after the other;
-- - `planning/check_architecture.py`, which checks the modules of the driver against their boundaries;
-- - `tools/generate_stringprep_tables.py`, which writes the Unicode tables of the driver;
-- - the comparison of `tools/check_lua_complexity.py`, which ratchets the complexity of its functions.
-- The first three share the documents under `planning/` and the evidence under `spec/`:
-- `advance_reference` runs `regenerate`, which runs the writer of the README and `render-state`.
--
-- The files, from the ground up:
-- - Base: the names that the library takes from its dependencies, Boolean tests, and lemmas on lists
--   and texts (Base/Tests, Base/Lists, Base/Text).
-- - Raise: a value or an exception, with its bind, and what holds of the value of a function that returns.
-- - Json: the values of `json.load` and the operations of Python that the tooling uses on them; an
--   object is a list of fields with each key once. Json/Laws has the laws of lookup, put and remove.
-- - Text: the methods of `str` that the tooling calls. Text/Print writes lists and numbers, Text/Search
--   finds texts in texts.
-- - Names, Counts: sets of names and counters of names as `sorted` lists them; Names/Order has their order
--   and members.
-- - Graph: graphs as lists of names with their targets, and walks along their edges.
-- - Plan: `planning/update_plan.py`.
--   Plan/Issue has its messages and exceptions, Plan/Pattern its regular expressions, Plan/Documents
--   `activity_map`, `declared_track_ids` and `status_for`.
--   Plan/Validate is `validate_plan`, with one child for each of its loops; Plan/Cycle is its nested
--   function `visit`. Plan/Progress is `validate_progress`, Plan/State is `compute_state`.
--   Plan/Git is `git_commit_issues` and the searches that it uses.
--   Plan/Files has the documents on disk: loading, checking and saving them, and `command_render_state`.
--   Plan/Record, Plan/Evidence, Plan/Command and Plan/Outcome have the commands that change the
--   progress: each `command_x` is a function `x` from the plan and the progress to the progress that
--   is saved, or an exception. Plan/Query has the choice of the command (`step`, `main`), and the
--   commands `next` and `check`. Plan/Locks and Plan/Contents have
--   `inspect_reference_locks`, `inspect_references` and the commands `reference-report` and
--   `check-references`.
-- - References: `planning/update_references.py`. References/Steps is a monad over references.json and the
--   world that git changes, with `require_git` and `read_document`; References/Advance is
--   `advance_reference`, References/Follow what it asks of the new commit, References/Paths the changed paths and commits, References/Delta
--   `inventory_delta`, References/Verify the proposals of commands that verify a change, and
--   References/Waypoint `find_green_waypoint`.
-- - Readme: `planning/update_readme_compatibility.py`. Readme/Layers has its constants, Readme/Versions the
--   fixtures for old servers, Readme/Suites `suite_counts`, Readme/Scores the marker and percentage of a
--   suite, Readme/Note `scoring_note`, Readme/Section `updated_readme`, and Readme/Table `render_table` and
--   `main`.
-- - Artifacts: `regenerate` of `planning/update_spec_artifacts.py`.
-- - Stringprep: `tools/generate_stringprep_tables.py`. Stringprep/Lines has the lines that it writes.
-- - Architecture: `planning/check_architecture.py`. Architecture/Lexer is `lua_tokens`,
--   Architecture/Imports reads the tokens, Architecture/Cycles is `dependency_cycles`, and
--   Architecture/Check is `check_source`.
-- - Complexity: `compare` and `generated_baseline` of `tools/check_lua_complexity.py`, over the metrics
--   that `parse_report` returns.
--
-- State. The source changes dictionaries in place; here a function returns the changed value, and
-- `set_record` puts the changed record of an activity back into the progress. A method that also writes
-- files takes and returns the four files of a `Files`, and leaves them as they were where it raises
-- before it writes. The only file that `advance_reference` itself writes is references.json, and a `Store`
-- holds it and the rest of the world. Messages are the constructors of an `Issue`, with the values that the text names.
--
-- Exit codes are natural numbers; any but 0 stands for the negative one of a process that a signal
-- ended. Children of these files that are not named here, such as Plan/Git/Clean or Architecture/Check/Reads,
-- have the descriptions and the lemmas of the results.
--
-- Parameters. `Env` holds what the program uses of its surroundings: Python's `str` of a value, the
-- SHA-256 of a value's canonical JSON text, git as a function from its arguments to an exit code and
-- an output, and the time. The Unicode tests `isalpha` and `isalnum` are parameters of the lexer. The files below the root of the
-- architecture check are given in their order. `Tools` and `Checkouts` hold git, the file system and the
-- names that a Python source declares, for the references; git and the generators are taken to leave
-- references.json alone. `Sources` and `Formats` hold the fixtures, the decimal digits, the format of a
-- percentage and the case of a label, for the README. `Unicode` and `Tables` hold the Unicode data.
--
-- Fuel. `search_cycles` and `dependency_cycles` recurse on a depth of one more than the number of
-- nodes, `reachable_commits` loops once for each edge and for each child of its start, and
-- `lua_tokens` loops at most once for each character and once more. A number has at most one digit more
-- than it counts.
--
-- Not modelled: the parsers of the arguments and what the commands print, a write to disk that fails,
-- the report of Luacheck and the reading of its baseline; of `planning/update_references.py` the analysis
-- of a candidate commit as a whole, the sandbox that simulates it, the digest of the report and the plan
-- items that are proposed from it; and the other programs of the tooling. Numbers with a fraction do not
-- occur in the documents.
pub mod Base
pub mod Raise
pub mod Json
pub mod Text
pub mod Names
pub mod Counts
pub mod Graph
pub mod Plan
pub mod Architecture
pub mod Complexity
pub mod Stringprep
pub mod References
pub mod Readme
pub mod Artifacts
