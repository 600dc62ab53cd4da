-- ===== src/Lib.antt =====
-- FossilSafe (backend/*.py) is a server that backs up shares to LTO tapes. A web application lets
-- users start jobs; the jobs plan which files to copy, ask a tape library for tapes, go on to
-- another tape when one is full, and write an audit log. This library models the parts that decide
-- something, and proves what they promise. Each folder begins with a comment on the code it is about.
--
-- The parts, their files here and the code:
--   Vtl (backend/tape/vtl.py): the virtual tape library. `Vtl` holds the constructor's values,
--     `VtlState` the dict of the state file. Vtl/State has the state and the slots, Vtl/Inventory the
--     scans, loads and unloads, Vtl/Media formats and mounts; a function has its method's name.
--   Spanning (backend/tape_spanning.py): a backup that goes on to another tape. Spanning/Changer is the
--     interface to a tape library, which Spanning/VtlChanger fills with Vtl. Spanning/Manager has the
--     methods. Spanning/Wait cuts `wait_for_tape` in two at the wait for the event, and Spanning/Parts
--     cuts `provide_next_tape`, which holds no lock, so that `Step` interleaves the threads.
--   RateLimiter (backend/rate_limiter.py): failed attempts in a window, and lockouts.
--   Audit (backend/database.py, backend/utils/hashing.py): the hash-chained audit log. Audit/Build
--     appends as `add_audit_log` does, for texts and for dicts; Audit/Verify is `verify_audit_chain`.
--   Auth (backend/auth.py, backend/lto_backend_main.py, backend/routes/auth.py): accounts, sessions
--     and roles. Auth/Database has the tables, Auth/Accounts and Auth/Sessions the methods of
--     `AuthManager`, Auth/Permissions the roles, Auth/Requests the decorators, Auth/BeforeRequest
--     the check before each request, which uses RateLimiter, and Auth/Login the login route and the
--     end of the SSO callback.
--   Pool (backend/database.py): `ConnectionPool`. `get_connection` is cut into its parts and at its
--     wait; Pool/Bound interleaves the parts, and Pool/Exclusive whole calls.
--   Framing (backend/utils/encryption.py): the format of encrypted streams, `encrypt_stream` for
--     `_encrypt_stream_with_len` and `decrypt_stream` for `_decrypt_stream_with_len`.
--   Controller (backend/tape_controller.py): the library with a real changer. Controller/Hardware is
--     what it takes from outside: the commands and the clock. Controller/Action has methods that
--     return or raise and keep what they did, Controller/State the fields with their setters,
--     Controller/Status the parser of `mtx status`, Controller/Commands the questions to the
--     changer, Controller/Moves, Controller/Loads and Controller/Force the methods that move tapes,
--     Controller/Operations their sequences. Controller/Drives is the specification that they refine.
--   Runner (backend/tape/runner.py): commands with retries, backoff and history; Runner/Loop is the
--     loop of `run`. Controller takes what a run of it ends with as the answer of a command.
--   Restore (backend/advanced_restore.py): `plan_restore`, in Restore/Plan, and the execution of a
--     plan with the wait for tapes, in Restore/Execute, down to the copy of one file.
--   Incremental (backend/backup_engine.py): `compute_incremental_plan`.
--   Prelude: what all parts share: lists, Python's dict in insertion order, equality, tests.
-- Modules named Tests hold runs and the theorems at concrete inputs.
--
-- How the code is read. State is passed explicitly: a method takes its object's state and returns
-- the new one with its answer. `None` is `none`, an exception is a value, a dict is the list of
-- its entries. Numbers are natural numbers; a time is in microseconds. Loops over lists are
-- structural recursion. Only the two loops of Framing run on fuel, the number of bytes that are left,
-- which is enough since each turn reads some; the retries of Runner are counted down, as `range` does,
-- and the wait of Restore has as many turns as its timeout has seconds and one more, since each
-- turn sleeps two. Every function is total.
--
-- What is taken from outside is an argument: sha256 with the JSON text, Ed25519, AES-GCM, argon2, pyotp,
-- random tokens, the clock. Where a theorem needs something of one of these, it is a law of the
-- record that passes it (a signature made is accepted, a password is accepted by its own hash, what was encrypted is
-- decrypted).
--
-- What is left out: log lines and browser events; failures of sqlite other than constraints, and of
-- the file system (so every audit signer has the same key, or none has one); locks that a method
-- holds throughout. Of the controller, formatting, LTFS volumes,
-- encryption and the detection of devices are left out, and of the wait until a drive ejects only
-- its end is kept. The rest of the program (the engine that copies files, the catalog, the
-- scheduler, notifications, the web front end) is not modelled: most of it calls devices, processes
-- and other services.
pub mod Prelude
pub mod Vtl
pub mod RateLimiter
pub mod Spanning
pub mod Audit
pub mod Auth
pub mod Incremental
pub mod Pool
pub mod Restore
pub mod Runner
pub mod Framing
pub mod Controller
