-- ===== src/Lib.antt =====
-- A verification library for mumu_autotask, a Python program that drives game scripts in emulator
-- instances. A command sends a Lua script into the running game and gets a text back; what the program
-- does next (which target it marches to, whether a march counts as sent, whether it may claim) rests on
-- what `src/mumu_autotask/business.py` reads from that text. The library models these readers and the
-- checks around them, and proves which texts they accept and what an accepted text means. The window of
-- `src/mumu_autotask/gui.py` works through batches of targets with these commands; the library models the
-- batches as state machines, and proves what every order of their operations keeps.
--
-- Parts of the program and their files:
--   Prelude, Prelude/*: tests on numbers, lists, and results with the errors that Python raises.
--   Python, Python/*: what the program uses of Python: `isinstance` on values (Value), texts as lists of
--     code points with `split` and `join` (Text), `str` and `int` of numbers (Decimal), the UTF-8 codec,
--     `strip` and `lower` (Unicode), hexadecimal (Hex), `sorted` and `min` (Sorting), and the loop that
--     collects a list without duplicates (Collect).
--   Business: `src/mumu_autotask/business.py`, with one module per part:
--     Tables: QUALITY_IDS to BATTLE_CATEGORY_ALIASES, `normalize_quality`, `normalize_battle_category`.
--     Roles: `validate_role_whitelist`.
--     Ids: `normalize_target_ids` to `normalize_yeti_rally_minutes`.
--     Wire: `_protocol_lines`, `_parse_integer`, `_parse_role`, `_parse_kingdom_line`. Every reader goes
--       through these.
--     Intel, Battle: the listings of targets. Select: the choice of a target from a listing.
--     Status: INTEL_STATUS and CLAIM_INTEL. Scene: SCENE and TOGGLE_WORLD.
--     March: OPEN, READY, PREPARE, COMMIT and MARCH. Verify: VERIFY. Commit: the battle stages.
--     Monster, Queue: world monsters and the march queue. Yeti: yeti rallies.
--     Constants: the Lua constants that a script for a target is built with, and `_finalize_lua`.
--   LuaSafety: `src/mumu_autotask/lua_safety.py`.
--   Kingdom: `src/mumu_autotask/kingdom.py`, over what adb, the XML parser and the number syntax of `int`
--     return, which are parameters; any functions can stand for them.
--   Hunt: the batches of `src/mumu_autotask/gui.py`, which the window works through:
--     Target: HuntBatchTarget, HuntBatchOutcome and what the batches share.
--     Selection: `build_hunt_queue`, `build_category_queue`, `build_task_queue`.
--     Waves: `build_hunt_waves`.
--     Sequence: HuntBatchQueue, one target after another.
--     Slots: HuntSlotBatch; Dispatch and Claim hold its operations, Moves the changes that they
--       consist of, Lives the diagram of a target's states, Steps the batches that they lead to.
--     Json, Receipts: the answers that the window acts on, `_is_online_status` to
--       `validate_claim_intel_receipt`.
--     Answers: what the window records in a slot batch of an answer to a wait or to the last check.
--   Examples: runs at concrete inputs.
--
-- How the model corresponds to the code:
--   - A function that may raise returns a Result. A raised error keeps the source text of its message;
--     what an f-string fills in stays unfilled, and with it the parameters that only a message uses. The
--     constructor `business` stands for BusinessError, and for LuaSafetyError and KingdomGuardError in
--     LuaSafety and Kingdom; `hunt_batch` stands for HuntBatchError.
--   - An object with methods is a record, and a method a function that returns the record behind it; the
--     dictionary `_state` is a function of the ids, read at the ids of the targets only. An error comes
--     without a record: in the batches that are reached, an operation raises before it changes anything.
--   - Indexing after a length check is `get_or` with a value that is never observed.
--   - A tuple of fields that the code unpacks is a record; StaminaStage and YetiTarget name such tuples.
--   - `set` membership and the `seen` sets are searches in lists. `list != sorted(list)` is an equality of
--     lists with the stable insertion sort, which returns the list that Python's sort returns.
--   - The fields of records are natural numbers: the readers never produce others, so the checks of
--     `_target_constants` for booleans and negative numbers pass by the type.
--   - `int` raises on more than 4300 digits, as Python does by default. `str` of a number is total here,
--     where Python has the same limit.
--   - `str_of n` runs on fuel n + 1; it drops a digit in each step, so that the fuel is never used up, as
--     the round trip in Python/Decimal/Canonical shows.
--   - `lower` follows Python on every character whose lower case has an ASCII character; the code compares
--     the result only with ASCII words and with Chinese words, which have no case.
--   - In `_finalize_lua`, `splitlines` is modelled up to empty lines, which the code drops.
--   - A Lua script's side is described by what it writes: `intel_lines`, `stage_lines`, `claim_lines`.
--     These are specifications, not translations of the Lua code.
--   - `range_from` runs on fuel `stop`, one unit for each number; the numbers grow by one at least, so that
--     the fuel is never used up before the range ends, as the theorem on waves shows.
--   - A `float` in an answer is known by the `int` that it equals, as Python compares them. The values of a
--     listed item can be hashed; the window takes them from a list that the readers above have made.
--
-- Not modelled: the Lua scripts themselves, which run inside the game, and the parts of
-- `src/mumu_autotask` that talk to devices and windows (`adb.py`, `frida_driver.py`, `frida_worker.py`,
-- `lua_state.py`, `mumu_manager.py`, `pcap.py`, `unityfs.py`, `http.py`, the widgets of `gui.py`,
-- `gui_backend.py`, `cli.py`), HuntWaveBatch of `gui.py`, which only headless tests still run, the
-- configuration (`config.py`), `workflow.py` and logging.
pub mod Prelude
pub mod Python
pub mod Business
pub mod LuaSafety
pub mod Kingdom
pub mod Hunt
pub mod Examples
