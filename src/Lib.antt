-- ===== src/Lib.antt =====
-- A model of homeconnect, a self-hosted server for the drives of comma devices, with theorems on its core.
--
-- A device connects by a websocket (src/athena.rs) and is then scanned over SSH (src/devsync.rs): the files
-- that are wanted and not yet registered go into a queue (src/sync_queue.rs), whose workers pull them into
-- the blob store (src/storage.rs, src/ingest.rs) and register them on the rows of their segment
-- (src/parse.rs). Users (src/api/users.rs) with a token (src/auth.rs) see and manage the devices that the
-- access rules give them (src/access.rs), are served files and byte ranges (src/serve.rs), and delete files
-- of a drive (src/api/manage.rs). Sweeps stitch the movies of complete drives (src/movie.rs), transcribe
-- them (src/subs.rs) and prune old drives (src/retention.rs). Settings are one table (src/settings.rs).
--
-- Files and what they model; a definition has the name of the function, with a word more where two
-- source files share a name:
--   Prelude       lists, texts as code points, integers, decimal numbers, splitting, and AppError/AppResult of
--                 src/error.rs with Action S A, a handler as a function of the state to a result and a state
--   Db            src/models.rs and migrations: the rows, and the statements that several handlers use
--   Access        src/access.rs, check_route_access of src/serve.rs, allow_route_view of src/api/v1.rs
--   Users         src/api/users.rs
--   Tokens        src/auth.rs, the part from a request to its principal
--   Storage       src/storage.rs
--   Serve         src/serve.rs
--   Settings      the typed settings on top of src/settings.rs, and the fields of Config that seed them
--   AppState      src/state.rs
--   SyncQueue     src/sync_queue.rs, with the workers of src/devsync.rs as steps
--   DevSync       src/devsync.rs
--   Segments      the registration of a file, from src/parse.rs and src/api/manage.rs
--   Logs          the rest of src/parse.rs: the messages of a log, the accumulator, the statistics of a segment,
--                 the rows that a parsed log writes and the aggregation of a drive's row
--   Ignore        src/ignore.rs
--   Browse        src/api/v1.rs: upload URLs, the drives' rows and pages, playlists, totals, paths, actions
--   Transcode     src/transcode.rs: the cache of transcodes, the runs of ffmpeg, the devices
--   Admin         src/api/settings.rs, the sync, whisper and transcode settings
--   SyncApi       src/api/devsync.rs
--   Ingest        src/ingest.rs, as HTTP uploads; DevSync/Pull has its use by the SSH pull
--   Manage        src/api/manage.rs
--   Movies        src/movie.rs; Movies/Build has the build, at whose awaits other requests may change the state
--   Subs          src/subs.rs
--   Retention     src/retention.rs
--   DeviceParams  src/device_params.rs
--   Pairing       pilotauth and pilotpair of src/api/v2.rs, and claim_device of src/api/v1.rs
--   Athena        src/athena.rs
--   Examples      a small household, and the theorems applied to it
--
-- Conventions. A table is a list of rows and a statement a function on it; a statement is taken to succeed
-- unless a constraint that the code handles forbids it. Columns that no modelled operation reads are left
-- out. A HashMap or HashSet is a list in one of the orders in which it may iterate. u64 arithmetic keeps
-- its wrap-around in the range parser and i64 arithmetic in the age limit; row ids, counters and flags are
-- natural numbers. The JWT library, argon2, SHA-256, UUIDs, clocks, the device's answers to SSH commands,
-- capnp, the decoders, the image library and the runs of ffmpeg are arguments, and so are the floats (Prelude/Floats), of which no
-- law is assumed. Ingest and Manage take the parser and the aggregation as arguments; Logs has them, on tables
-- with the columns that only they and the pages use. The one loop with fuel is the
-- storage limit of the retention pass: its fuel is the number of routes, and each round deletes one.
--
-- Not modelled: HTTP routing and JSON, ffmpeg itself and the other processes, the model's frames in an rlog, the
-- enhancement of the audio (src/denoise.rs) and the transcription, of which the movies and the sweeps see the outcome, timers
-- and wake-ups, the front end; software updates and onboarding pages.
mod Prelude
pub mod Admin
pub mod SyncApi
pub mod Transcode
pub mod Browse
pub mod Logs
pub mod Ignore
pub mod Movies
pub mod Subs
pub mod Pairing
pub mod DeviceParams
pub mod Retention
pub mod Tokens
pub mod Athena
pub mod Db
pub mod Access
pub mod Users
pub mod Storage
pub mod Serve
pub mod Settings
pub mod AppState
pub mod Segments
pub mod Ingest
pub mod Manage
pub mod DevSync
pub mod SyncQueue
pub mod Examples
