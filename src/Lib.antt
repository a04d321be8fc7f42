-- ===== src/Lib.antt =====
-- HomePASS decides who may pass which Door and when. This library models the parts of
-- custom_components/homepass that make these decisions, and those that guard their evidence.
--
--   - Schedule (models/schedule.py, models/schedule_evaluation.py): weekly rules and schedules as their
--     constructors leave them, the overlap test on segments of the week, the evaluation at an instant,
--     the stored form.
--   - Models (models/person.py, access_point.py, access_grant.py, access_metadata.py,
--     synchronization.py): the records of Persons, Doors, grants and lock codes with their constructors
--     (`__post_init__`) and stored forms, and the aggregation of synchronization states. Models.Json holds
--     the field helpers that these modules share.
--   - Authorization (models/authorization.py, services/authorization.py, and the lookups of
--     repositories/access_point.py): the policy engine (Decision), the stored snapshot (Storage), the
--     decoding of one relationship from it (Snapshot), the service's calls (Service) and its matrix.
--   - Nfc (nfc/sessions.py, nfc/models.py, nfc/repository.py): the store of expiring tokens, the records
--     of tags, invitations and passkeys, and the repository's operations on them and on the audit log, with
--     those before a Person or a Door is deleted.
--   - Keypad (services/keypad_processor.py): one request at a keypad, with the lockout.
--   - Correlation (services/lock_event_correlation.py): pending lock commands and their confirmations;
--     `consume` is `confirm` here.
--   - Lifecycle (lifecycle.py, repositories/lifecycle_operation.py; the record of
--     models/lifecycle_operation.py is in Models): the journal of operations of several steps, with its
--     check of concurrent changes, and the calls of the manager that runs, retries and ends them.
--   - Storage (storage.py): the transaction of the storage manager, and the sections of the validation
--     that gates it on people, Doors, grants and schedules.
--   - Repositories (repositories/person.py, access_grant.py, schedule.py,
--     access_point.py): mutators of the stored data, each run in such a transaction.
--   - Prelude: shared types and lemmas; Tests: the theorems at concrete inputs.
--
-- The keypad calls the authorization service for the Person whom a PIN resolves to; the service decodes
-- Person, schedule and grant from one snapshot and hands them to the policy engine, which evaluates the
-- schedule.
--
-- A function keeps its name, without a leading underscore, and a method is a function of the object's
-- state: a method that changes state returns the new state and its result. A constructor's checks are
-- `<type>_post_init`, `to_dict` and `from_dict` are `<type>_to_dict` and `<type>_from_dict`. An exception is
-- an `err` of Prelude.Result, named after the exception's class. Tests of the kind `isinstance` on
-- arguments whose type is declared are left out; those on stored JSON values are modelled. Each coroutine
-- that runs under a lock is one step, and so is each call that loads one snapshot.
--
-- A `datetime` is its instant in microseconds in UTC, a `UUID` its 128-bit number, and a Python `dict` the
-- list of its entries in order. The parsing and printing of UUIDs, dates and times (`Codec`, `TimeCodec`),
-- the time zone database (`Zones`), the conversions `str`, `int` and `upper` (`Conversions`), the SHA-256
-- digest, the order of texts in the matrix, the clock, random identifiers, the outcome of a save, the steps
-- of an operation, `casefold`, the identifier of the Permanent schedule and the calls on other services are
-- parameters. Their laws say that a printed UUID, instant or time is read back, and that a zone's local times are in range.
--
-- The loop of a lifecycle execution has fuel, one round more than there are steps, which is enough since
-- each round advances by a step; all other recursion is structural. The manager of the operations waits for
-- the storage between its reads and writes, so other tasks may change the journal before each write, in any
-- way that the theorem at hand allows. The bounds are the source's own: 24-bit read counters,
-- 500 audit records, five failures in five minutes.
--
-- Not modelled are the migrations and the other sections of the storage's validation, which are an argument
-- there, the remaining repositories, the services that change people, grants and devices, the drivers and providers of locks, the credential vault, activity and notifications, the
-- panel and the HTTP handlers: they move data to and from the parts above, Home Assistant or devices.
pub mod Prelude
pub mod Schedule
pub mod Models
pub mod Authorization
pub mod Nfc
pub mod Keypad
pub mod Correlation
pub mod Lifecycle
pub mod Storage
pub mod Repositories
pub mod Tests
