-- ===== src/Lib.antt =====
-- Threshold Node: a household node that lends a dwelling's description and its command scopes to
-- agents by grants. This library models its pure decisions, its records and its files' bytes, in
-- the files below; paths are those of the repository.
--
--   Core/Types           src/threshold/core/types.py: enums, the housefile, the grant
--   Core/Auth            src/threshold/core/auth.py: bearer tokens and their digests
--   Core/Config          src/threshold/core/config.py: from_env, bind_address, validate_runtime
--   Core/QuietHours      src/threshold/core/quiet_hours.py: evaluate_command_quiet_hours
--   Core/Timestamp       the RFC 3339 pattern that grants/manager.py, grants/store.py and core/ledger.py share
--   Core/LedgerEntry     src/threshold/core/ledger.py: _normalize and the shapes of ids and digests
--   Core/Ledger          the bytes of the ledger file: _repair_incomplete_tail, checkpoints, append
--   Core/Ledger/Prepared prepare_event, rebuild_prepared_event, append_prepared, inspect_prepared,
--                        verify_witness, has_history
--   Grants/Manager       src/threshold/grants/manager.py: issue, revoke, suspend_all, decision
--   Grants/Record        src/threshold/grants/store.py: _validate_record and the outgoing snapshot
--   Grants/Store         pending transactions: _validate_pending_semantics, _validate_pending_base
--   Grants/Store/Envelope _decode_state as a test of a state, save_state
--   Grants/Platform      what the authority runs on: clock, digests, JSON, its two files
--   Grants/Authority     src/threshold/grants/authority.py: loading, verification and recovery
--   Grants/Authority/Verified what _verify_clean_state establishes
--   Grants/Authority/Settling how a recovery saves what it reaches
--   Grants/Authority/Commit _commit: pending state, ledger line, settled state
--   Grants/Authority/Changes what issue, revoke, suspend_all and an expiry commit
--   Grants/Authority/Mutations the calls under _exclusive: issue, revoke, decision, authorized,
--                        suspend_all, snapshot
--   Housefile/ScopedView src/threshold/housefile/scoped_view.py: scoped_view; its rules in Rules,
--                        what a grant may know of a housefile in Redaction
--   Hardware/Display     src/threshold/hardware/display.py: DisplayState, sanitize_agent
--   Hardware/Estop       src/threshold/hardware/estop.py: SimulatedLatchedInterlock
--   Capture/Geometry     src/threshold/capture/geometry.py: the grid, the checks of a binding
--   Capture/Geometry/Artifact build_geometry, parse_geometry
--   Api/Origin           src/threshold/api/server.py: require_owner, owner_console_origin_policy
--   Api/Errors, Api/Node the errors of the routes, the shared state, _log, _usable_grant
--   Api/Reads            the route GET /housefile
--   Api/Commands         the route POST /command and _evaluate_command
--   Api/Stop             the routes that trip and rearm the simulated interlock
--   Api/Issuing          the routes that issue and revoke a grant
--   Api/Owner            the owner's projections, the routes of the status and of the snapshot
--   Base                 Boolean tests, texts, dicts and results that all of them share
--
-- How they interact: the manager decides on grants that the store keeps; each change of the
-- grants is a pending transaction of the store with an event of the ledger, bound to a checkpoint
-- of its file; the store's clean state holds a witness that the ledger bears out, and the
-- authority loads, verifies and recovers the two together, and commits each change to them in
-- three writes. Every call of the authority first reloads, so another process may have written in
-- between. The routes of the service run one at a time on a node: the authority with its files,
-- the display and the interlock. The scoped view takes a grant and the housefile, and the
-- manager's decision and the quiet hours stand before it. The interlock's durable callback
-- suspends the grants, and the display shows its latch.
--
-- How state is modelled: a dict of grants is an association list in insertion order, and a method
-- that raises returns an error in place of the new dict. The ledger is its list of bytes, or none
-- while the file is missing; an operation takes how its write ends (done, or failed after so many
-- bytes with a rollback that succeeds or fails) and returns its outcome beside the file. A store
-- state stands for its JSON. The interlock carries the list of the callbacks it has run, each
-- with the latch it could observe, and a record says how each callback ends. An object is a
-- record, a value that Python checks by isinstance is an option or a sum where the code has a
-- branch for it, and a time is a UTC microsecond.
--
-- Parameters stand for what is not the program's: fromisoformat (datetime), sha256, dumps and
-- loads (json), strip and isprintable (str), the Unicode tables of the display, and the
-- arithmetic of floats in the interlock's timing. The random ids of transactions and grants are
-- arguments. Where a theorem needs a law of one it is a hypothesis of the theorem, and an example
-- beside it applies the theorem with a function for the parameter. No definition runs on fuel:
-- every loop is a recursion on a list, a text or a count of digits. The bounds are the program's
-- own: 256 KiB for a ledger entry and for the tail that a repair scans, 64 KiB of tail under a
-- checkpoint's digest, 1024 grants, 64 rooms and 128 KiB in a geometry artifact, and revisions
-- below 2^63.
--
-- Not modelled: JSON syntax and the 4 MiB bound on a store file (a refusal for its size counts as
-- a failed save), file locks, modes and symbolic links (one Boolean where they can refuse), the
-- overflow of a time past year 9999, render_terminal, the demo seeds and the observers of the
-- authority, FastAPI with the validation of requests, its constant answers, the ledger's reading
-- and its route, the capture by vision, housefile files, the printed receipt, the event bus,
-- adapters and scripts. A request's lock is not modelled beyond its effect: a route is one step.
-- Of errors outside the program: a store file that cannot be read and a truncation or an fsync of
-- the ledger's tail that fails are not modelled; nor is a callback of the interlock that calls it
-- back or raises a BaseException. A store writes its grants in the order of their ids and the
-- model keeps the order that they have, on which no lookup depends.
pub mod Api
pub mod Base
pub mod Core
pub mod Grants
pub mod Housefile
pub mod Hardware
pub mod Capture
