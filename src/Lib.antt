-- ===== src/Lib.antt =====
-- RepoPlane is a local server that gives a coding agent bounded tools over one workspace. Its durable
-- records are kept in SQLite, its paths are resolved within a trust boundary, and a user widens that
-- boundary only by approving a request.
--
-- Which file models which part:
--   Store.antt, Store/Tx.antt: the record types of internal/store/store.go and the transactions of
--     internal/store/sqlite/records.go. A Db holds the three tables and, statement by statement,
--     whether the engine fails it; a transaction restores the tables on every path without a commit.
--   Store/Records: the writers of records.go. Rows has the rows, the two unique indexes and the
--     trigger, Write the functions (create, update, replace_memo, import_verification and what calls
--     them), Effects what each does on success, Run any sequence of calls.
--   Store/Archive: ExportRecords, RestoreRecords and validateRecordArchive of records.go.
--   Workspace: Root of internal/workspace/root.go: the resolving functions and the read grants.
--   Runtime/Access: the Service of internal/runtimeaccess/service.go, which uses Workspace: Begin
--     records a proposal, Complete applies it, Revoke and RebindRoot take authority away.
--   Runtime/Config: Validate of internal/runtimeconfig/types.go.
--   ToolboxClient: the contract cache of internal/toolboxclient/cache.go.
--   TextCodec: internal/textcodec/codec.go. Contracts: internal/contracts/limits.go and response.go.
--   Content: internal/content/bounded.go, over a reader that is a list of what its reads give.
--   Cursor: internal/cursor/codec.go. HttpTransport: the admission limiter of
--     internal/httptransport/server.go, the requests that auditMiddleware lets through it (Sessions),
--     and the check of a profile, profile.go.
--   Store/Records/Query: QueryRecords of records.go, with its WHERE and ORDER BY clauses.
--   Store/Cache: internal/store/sqlite/cache.go, the table of reusable runs as a list of entries.
--   Store/Results: the result sets of internal/store/sqlite/sqlite.go.
--   Runner: internal/runner. Machine is the state that its calls share (the durable records, the
--     table of reusable runs, the running processes and the trace of starts), Host what the platform
--     and the catalog answer.
--     Capture and Stream are the log of a process and its pages (execute.go), Files hashFile, Receipt
--     loadRun and updateRun, Plan the checks of Execute, Execute the life of a run from Execute over
--     waitForRun to the interruption in Recover, Artifacts what a finished run leaves (artifact.go,
--     cache.go). The runner calls Store/Records and Store/Cache.
--     Runner/Reuse is the reuse of a run (cache.go): Prepare decides for a hit, Apply restores it.
--   RecordService: internal/records/service.go. Report has the verification reports, Page the pages
--     of a query, which uses Store/Results and Cursor, Validate the checks of a request, Mutate the
--     writes on Store/Records.
--   Catalog: the types of a capability, internal/catalog/manifest.go and service.go.
--   Base: Boolean tests, lists, maps as association lists, results and int64 as a sign and a size.
--
-- What is a parameter: encoding/json and the JSON functions of SQLite (Json), path/filepath and os
-- (Platform, one value for the state of the file system in which an operation runs), UTF-8 validity
-- and golang.org/x/text (Codec), strings.TrimSpace, the clock and random tokens, and what the runner
-- asks of the platform (Host, Reuser).
--
-- An operation of a service is one step, also where the source holds its mutex over parts of it only
-- (Begin, Complete and Revoke of internal/runtimeaccess) or holds none (Execute of internal/runner). So
-- a theorem on two calls of Execute is about a second one that begins after the first has returned.
--
-- Bounds and fuel: durations are int64 and wrap around; record revisions and times are numbers
-- without a bound. The walk from a path to an existing ancestor takes the length of the path plus 1
-- as fuel, which is enough when filepath.Dir shortens an absolute clean path until the top. The
-- loop of HashBounded takes the maximum plus 1, which is enough since a turn that goes on has read a byte.
--
-- Not modelled: the migrations' bookkeeping, the catalog generations and SearchCatalog, workspace.Open,
-- prompt texts; of the runner Prepare, Inspect, the copies of files and cleanupExpiredRuns; of the
-- record service Query and the payloads of a write, which shape JSON; the index of the catalog, search
-- and the servers' wiring, which read files and sockets.
pub mod Base
pub mod Catalog
pub mod Content
pub mod Contracts
pub mod Cursor
pub mod HttpTransport
pub mod RecordService
pub mod Runner
pub mod Runtime
pub mod Store
pub mod TextCodec
pub mod ToolboxClient
pub mod Workspace
