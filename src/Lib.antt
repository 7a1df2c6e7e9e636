-- ===== src/Lib.antt =====
-- Sleigh: a Go server that keeps sandboxes for the sessions of agents on a container runtime.
--
-- The server has an HTTP router (server/internal/http), a service (server/internal/sandbox) that
-- keeps the sandboxes, a SQLite store (server/internal/store/sqlite), a container runtime behind an
-- interface (server/internal/sandbox/docker), a notifier of events (server/internal/notifier), and a
-- monitor of the host's memory (server/internal/monitor).
-- The service calls the store and the runtime, keeps the running exec tasks in a map of its own, and
-- sends an event with a number of its session's after each change.
--
-- Files and code:
--   Prelude, Action    lists, text (code points), integers, int64 and float64 arithmetic; an `Action`
--                      is a method of a shared object that may fail: a state passed on beside a
--                      result. Keeps, Ends and Triple are what can be said of one: an invariant, what
--                      holds after it from any state, what holds when it returns no error.
--   Errors             server/internal/errors/errors.go, and wrapped errors.
--   Store              server/internal/store/sqlite/store.go: `Db` has a list of rows for each table
--                      of `migrate`; each query is a function of its own (CreateSandbox is
--                      `create_sandbox`), with the primary keys, the foreign keys and the cascades
--                      written out. One file per table; Paging, Walk, Counters, Acquire and Integrity
--                      hold the lemmas.
--   Service            server/internal/sandbox/service.go: `World` has the database, the runtime's
--                      state, the map of exec tasks, the pool's counters, and what is nondeterministic
--                      as data: which database calls the driver fails, the random source, the clock.
--                      Goroutines that a method starts are put into `jobs`. runExecTask is two steps,
--                      before and after the command, with the command's return as an argument; the
--                      memory poll is one tick. Effects, Events, Access, Memory, Expand, Execs, Pool,
--                      Mounts, Cleanup, Snapshots and Webhooks follow the sections of the file; History
--                      has server/internal/sandbox/cursor.go too.
--   Workspace          syncTree and cloneSnapshotBase of server/internal/sandbox/workspace_snapshot.go,
--                      on trees of files, directories, links and special files. The walks of
--                      filepath.Walk are recursions on the tree. Mirror, Success, Conflict, Ordered
--                      and RoundTrip hold what they leave.
--   Router             server/internal/http/router.go: each handler is a function from the parts of a
--                      request (`Request`, and the decoded body) to an action of the service that
--                      gives a `Reply`; `answer` writes an error by its status. Shell has the quoting of
--                      a command line and a reader of shell words, Limits the cuts of outputs, Edit the
--                      context edit, Paths the checks of paths, Quality the commands that check a
--                      change and how their outputs are read, Reads and Workflow the read command and
--                      the workflows; Guarded has the session checks.
--   Notifier           server/internal/notifier/retry.go and http.go: the delivery of one event with its
--                      retries, the queue before it, and how the HTTP reporter tells failures apart.
--                      Queue/Log has the log of events that the queue refines.
--   Monitor            server/internal/monitor/service.go: the reading of /proc/meminfo, the risk that
--                      memory runs out, and the dispatch of its events.
--   Config             server/internal/config/config.go, and the policy that server/cmd/server/main.go
--                      makes of it.
--   Tests              concrete stores and worlds, and the theorems applied to them.
--
-- Parameters: the container runtime (`Backend`), what path/filepath and os say of the host
-- (`Files`), the host's directories and the targets of their links (`Disk`), what the monitor says of
-- the host's memory (`HostMemory`), the calendar of the clean-up loops, the reporter below the
-- retries, the HTTP client and URL parser of the webhooks, the codecs of the cursors (JSON, base64,
-- HMAC), the environment, and what the others do while a handler sleeps. Loops over rows and retries
-- are structural; the loop of ensureWarmPool runs as often as the pool is short of sandboxes; the walk
-- over the history takes fuel, and one more than there are rows is enough; the search of
-- findAllIndexes takes one more than the content is long; waitExecResult takes the number of times
-- that the clock is before the deadline.
--
-- The service is taken as built with a store and a runtime: the checks for nil at the head of its
-- methods are left out. Times are texts, as the code stores and compares them. Locks are not
-- modelled: a step of the model is a method or a goroutine's part between two waits. Directories of
-- the host are apart from each other; permission bits and failures of the disk are left out, and the
-- metadata of a snapshot is a file. os.MkdirAll accepts a link to a directory, and the walk goes on in
-- the directory that the link leads to: what its calls answer there is part of the parameter
-- (`Target`), and the directory is taken to lie outside the trees of the model.
-- Not modelled: the router's codeWrite and copyEnvironment, which run docker and git on the
-- host, the choice of a language for them, its lists of workspaces and its reports of the monitor; the monitor's readings of the load
-- and the pressure; the Docker client, the wiring of the parts, and the tracing.
pub mod Prelude
pub mod Errors
pub mod Action
pub mod Store
pub mod Workspace
pub mod Service
pub mod Router
pub mod Notifier
pub mod Config
pub mod Monitor
pub mod Tests
