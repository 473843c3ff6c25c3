-- ===== src/Lib.antt =====
-- A model of the core of the CalDAV assistant, a Python program that plans and tracks the tasks and
-- events of a CalDAV server, with proofs of what its services promise.
--
-- The parts, and the files that model them:
--   api/v1 (models.py, errors.py)        Api.antt: the data objects as records, the errors as data.
--   `datetime` and its zones             Temporal.antt: wall clocks in microseconds; the zone
--                                        database is a parameter.
--   internal/tasks/service.py            Tasks: `_normalize_changes` in Tasks/Changes.antt; the
--     and semantics.py                   state and the calls of the collaborators in
--                                        Tasks/World.antt; list, get and `_update` in
--                                        Tasks/Service.antt; find in Tasks/Service/Find.antt; create,
--                                        update and delete in Tasks/Service/Editing.antt; start,
--                                        pause, switch_away, resume, complete and cancel in
--                                        Tasks/Service/Lifecycle.antt.
--   internal/session/service.py          Session.antt, one function for each method of
--                                        `SessionService`.
--   internal/session/caldav.py           Session/Caldav.antt: `CalDAVSessionService`.
--   internal/undo/service.py             Undo.antt: `UndoManager`.
--   internal/activity/service.py         `record_in` of Tasks/World.antt: the write path of the
--                                        journal.
--   internal/caldav/adapter.py           The record `Adapter` of Tasks/World.antt.
--   internal/agenda/engine.py            Agenda/Build.antt: `AgendaEngine`.
--   internal/agenda/next_engine.py       Agenda/Next.antt: `NextEngine`.
--   internal/reminders/engine.py         Reminders.antt: the data and the helpers of
--                                        `ReminderEngine`; Reminders/Requests.antt: the requests
--                                        of one source; Reminders/Schedule.antt: evaluate, due and
--                                        next_due.
--   internal/caldav/sync.py              Sync: the dictionaries of the cache in Sync/Rows.antt, their
--                                        checks, comparison and merge in Sync/Snapshot.antt, and
--                                        `SyncEngine` in Sync/Engine.antt.
--   internal/caldav/sync_token.py        Sync/Urls.antt and Sync/Transport.antt: `SyncTokenTransport`,
--                                        its reads in Sync/Transport/Load.antt and `changes` in
--                                        Sync/Transport/Report.antt; there too `_app_error` of
--                                        internal/caldav/library_adapter.py.
--   internal/worklog/service.py          WorkLog.antt: `WorkLogService`.
--   internal/tasks/work_service.py       Tasks/Work.antt: `CalDAVWorkTaskService`.
-- All paths are below caldav_assistant/. A function has the name of the method that it models,
-- without a leading underscore; what several methods share, and the body of a loop, has a name of
-- its own. Prelude.antt passes on the names of the libraries and holds the shared helpers, and
-- Effect.antt holds the form of all stateful calls: a state goes in, and a result or an error comes
-- out with the state as it then is, since what was written before a `raise` stays written.
--
-- How they interact: the task service asks the adapter, then tells the undo manager, the session
-- and the journal, in that order; the session asks the task service for the tasks that are in
-- process; the undo manager calls the task service with its own recording suspended. One record,
-- `World`, holds the state of them all, so every order of writes is visible to the proofs. The
-- synchronisation stands beside them: it reads the server through the adapter or, with sync-tokens,
-- through the transport, and replaces the snapshot that background services read. The work log keeps
-- its intervals as events of one collection, through the adapter. The session of
-- internal/session/caldav.py keeps no state: it reads the work log or the journal.
--
-- Loops are structural recursions over lists, with no bound but that of the data. Only the digits
-- of an index (`decimal` of Reminders.antt) are written with fuel, the number plus one, and a number
-- has no more digits than that.
-- Sorting is by insertion and `min` keeps the first least item, as Python's stable `sorted` and
-- `min` do; tuples of numbers, and of the code points of a text, are lists compared
-- lexicographically.
--
-- Parameters: the adapter and its store (a server lies behind it), the zone database, `str.upper`
-- and `str.casefold`, which map the letters of every script, `isoformat` and `fromisoformat`, what
-- decodes the alarms of an iCalendar object, and what python-caldav answers to each request of the
-- transport. What a theorem asks of an adapter is a named condition: that it lists trimmed ids, sets
-- exactly the given fields, or accepts a write.
--
-- Not modelled: the limits of `datetime` (years 1 to 9999), progress messages, extension hooks,
-- event payloads of the undo manager, the order in which `segments_for` returns its intervals,
-- values of types that an annotation excludes where the code only passes them on, and the parts of
-- the program that read and write files, sockets and terminals.
pub mod Agenda
pub mod Api
pub mod Effect
pub mod Prelude
pub mod Reminders
pub mod Session
pub mod Sync
pub mod Tasks
pub mod Temporal
pub mod Undo
pub mod WorkLog
