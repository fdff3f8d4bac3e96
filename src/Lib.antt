-- ===== src/Lib.antt =====
-- pocket-coder: the core of the server, in Go under server/internal.
--
-- The server runs coding agents in project containers. Its parts work together as follows. Work
-- Sync (sync) moves a project's working tree between the server and a developer's machine: a
-- one-time code opens a session, the two sides exchange manifests of their trees, and their
-- difference is the list of operations that is sent, staged, backed up, applied, verified, and
-- rolled back on failure. The authentication (auth) checks the one account with a limit on wrong
-- passwords; the state file (state) holds that account, and every change of it is all or nothing;
-- the harnesses (harness) are entries of it. The preview manager (preview) owns one
-- browser worker for each project, with a token for the client that watches it, and the janitor
-- removes the containers that nobody owns. The agent loop (agent) asks a model, runs the tools
-- that it calls and ends in an answer; the turn around it folds the loop's events into a
-- transcript and rebuilds a conversation from the turns that the thread store (threads) keeps, one
-- folder for each chat. The event log (events) is the audit trail, read in pages.
--
-- Which file models which part:
--   Prelude, Result, Map, Order  what the parts share: Go strings, `if`, lists, comparable types,
--     functions that return an error, Go maps as association lists, sorting.
--   Sync.Manifest  server/internal/sync/manifest.go: Entry, Manifest, Index, Normalize, ValidPath.
--   Sync.Diff  Diff, Counts and TransferSet of the same file, PlanOps and existingEntries of
--     server/internal/sync/service.go, Compare of server/internal/sync/backup.go.
--   Sync.Errors  server/internal/sync/errors.go.
--   Sync.Code  server/internal/sync/code.go: the store of codes and sessions; a method is a function
--     from a store to its result and the store after it.
--   Sync.Archive  server/internal/sync/tar.go: copyTarMembers and writeTarMember.
--   Sync.Backup  server/internal/sync/backup.go: an archive is the entries of its manifest.json and its
--     tar members; the directories that it is read from and written to are maps of files.
--   Sync.Service  server/internal/sync/service.go: Plan and Send, with UploadFiles and RemovePaths of
--     server/internal/sync/container.go. The container is the record Container of Sync.Service.Interface.
--   Auth  server/internal/auth/auth.go: Login and its limits, stored hashes, tokens, RequireAuth.
--   State  server/internal/state/state.go: the document, and Open, Mutate and SetPassword of its store.
--   Harness  server/internal/harness/harness.go: the registry of command-line agents in the document.
--   Preview.Manager  server/internal/preview/worker.go: a critical section under the manager's lock is
--     one function, so Ensure is begin_ensure and end_ensure, and the reachable managers are those of
--     every interleaving.
--   Preview.Janitor  server/internal/preview/janitor.go, SanitizeName of
--     server/internal/project/repo.go.
--   Agent.Turn  server/internal/agent/turn.go: RoundCollector and BuildHistory.
--   Agent.Loop  server/internal/agent/loop.go, Completion of server/internal/agent/completion.go,
--     toolReply of server/internal/agent/agent.go, the constructors of messages.go there.
--   Threads  server/internal/threads/threads.go: names of files and scopes (Names), one folder's files
--     (Folders), the operations on threads and turns (Store), and on approvals (Approvals).
--   Events  server/internal/events/events.go: the log as the lines of its file.
-- Below a part stand the modules of its theorems, named for what they prove, and Tests.
--
-- Parameters. What is not code of the repository is an argument: SHA-256 with hex, unicode.ToUpper,
-- strings.ToLower and strings.TrimSpace, path.Clean, the random sources, the clock, the container's
-- commands, the mode that a new file gets under the umask, Argon2, base64, JSON and JWT, the
-- model's provider, a tool's run, Docker's answers and the results of writing to the disk. The
-- hypotheses about such arguments are that a hex digest is not empty; that upper-casing leaves the
-- characters of a code as they are; that path.Clean keeps the name of an archive's member whose
-- path is valid (KeepsPaths); that tar and rm in the container touch the named paths alone, do what
-- they are told where they succeed, and read what is there (IsFaithful), where a failed command may
-- have done a part; that the texts printed into a hash are read back (IsReadBack); that a copy of a
-- document through JSON has its account (KeepsUser); and that a token signed with a secret parses
-- with that secret to its claims, whose times are whole seconds, until its second of expiry
-- (IsParsedBack). Numbers do not overflow, except that the parsing of a turn file's number refuses
-- what does not fit 63 bits; time is in nanoseconds. A pointer that outlives its map entry is an
-- address on a heap (the sessions of codes, the start calls of previews).
--
-- Fuel. Two loops of the source are bounded by something other than a list: drawing a code reads a
-- list of random bytes, of which sixteen are enough, and the agent's loop counts its steps down as
-- the source counts them up.
--
-- Not modelled: HTTP routing and JSON, the commands run in containers, git, encryption, the
-- download of a sync, the browser, the lineage log of the agent, cookies and the front end. Errors
-- of the server's own disk, and a tar stream of the container that breaks off, are left out of
-- staging and of backups. A tree is a map of files without directories of its own: staging,
-- applying and restoring refuse a file where another one stands above or below its path, and refuse
-- a link above a path, which the code follows, like a file; unpacking a backup, whose paths come
-- from one tree, does not ask for this. A link in a temporary directory under the entry of a plain
-- file, which no staging of the code leaves there, would be followed, and is read as its target
-- here. A tick of the preview's sweeper is one step, though the lock is free between its sweep and
-- each stop. Paths in the thread store are joined without the cleaning of filepath.Join, which
-- matters for the scopes "." and ".." alone.
pub mod Auth
pub mod State
pub mod Harness
pub mod Prelude
pub mod Map
pub mod Order
pub mod Result
pub mod Sync
pub mod Preview
pub mod Agent
pub mod Threads
pub mod Events
