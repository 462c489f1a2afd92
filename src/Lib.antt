-- ===== src/Lib.antt =====
-- Counterpoint: reviews of committed work by a persistent Codex thread. A review request names a
-- repository, a branch and a commit; the review service takes the workflow's lock, reads the
-- workflow's record from the state file, answers an identical completed request from it, and
-- otherwise runs one review turn on the workflow's thread and stores the completed round. The
-- request comes over MCP; git validates its target; the Codex app-server is a child process that the
-- connection talks to; a build-capable review runs in a disposable checkout.
--
-- Which file models which part of the repository:
--   * State/ models internal/state: Record.antt and History.antt the persisted records, the retention
--     and the validation of history (history.go), ObjectId.antt IsObjectID, Request.antt the identity
--     of a request (request.go), Lock.antt the advisory locks (lock.go), Store.antt and
--     Store/Write.antt Load, Save and writeAtomic (state.go).
--   * AppServer/ models internal/appserver: Notification.antt and Usage.antt what the client reads
--     (wire.go), Watcher.antt the turn watcher, Outcome.antt the end of a turn, Policy.antt the thread
--     calls and their policy checks, Toml.antt the configuration overrides (client.go), Warnings.antt
--     the bounded warnings, Conn.antt the state of a connection, the queue to its writer and the ways
--     it ends, Conn/Dispatch.antt what the reader does with a line, Conn/Calls.antt the steps of a
--     call, Conn/Steps.antt the reader, the writer and the calls as one system of steps (conn.go).
--   * Review/ models internal/review: Completed.antt the record of a completed round, Eviction.antt
--     saveEvictingHistory, Service.antt the collaborators of a review and its log, Service/Setup.antt,
--     Service/Round.antt and Service/Run.antt the course of a review (review.go), Prompt.antt the data
--     of a prompt and Prompt/Delimiters.antt its delimiters (prompt.go), Act.antt the calls whose
--     answers depend on the log. workflow_key in Service/Run.antt is WorkflowKey of
--     internal/gitrepo/repo.go.
--   * GitRepo/ models internal/gitrepo: Buffer.antt boundedBuffer and Command.antt the run of a
--     command (git.go), Branch.antt branch.go, Target.antt target.go, Checkout.antt checkout.go,
--     Instructions.antt and Utf8.antt instructions.go, Repository.antt Open (repo.go).
--   * Config.antt models internal/config/config.go, with EffortAccepted of internal/review/review.go.
--   * Report.antt models the usage report of cmd/counterpoint/usage.go.
--   * Scratch/ models internal/scratch: Root.antt the scratch root and Prepare.antt Prepare and Close
--     (scratch.go), Tree.antt removeTree and Sweep.antt sweepEntry (sweep.go).
--   * Mcp/Reader.antt models boundedLineReader of internal/mcpserver/server.go.
--   * Prelude/ has the shared helpers; Tests/ has concrete runs.
--
-- Go strings are lists of bytes, maps are association lists without a key twice, an int is an
-- integer whose 64-bit wrap-around is written out where the code computes with untrusted values, and
-- an error is a value of a Result. A function with a pointer receiver returns the new state. White
-- space is Unicode white space in UTF-8, as TrimSpace and Fields see it. Concurrent goroutines are steps on a shared state, and a run takes any
-- sequence of them; which ready case a select takes is part of the step. A critical section is one
-- step, and so is the read of the recorded error after a select that found the connection closed.
--
-- What the code calls outside the repository is an argument: encoding/json (two records Codec, and
-- the decoder's fields of Machine), the file system (Files, with what the operating system documents
-- of it, Machine, Paths, System, Visit), flock, the clock and the context (Poll), container/heap
-- (Heap), SHA-256 in hex (hex_sum), git (Git), bufio's slices of the input (Input) and json.Valid.
-- The answers of git are those of one state of the repository. The review's collaborators are the
-- record World; each of its fields may answer from all that was done before.
--
-- Fuel: AcquireLock's loop runs on one turn for each poll interval of the wait and two more; the
-- loops of saveEvictingHistory run on one more than the history records that the state holds; the
-- loop of delimiters runs on one turn more than the quoted text has bytes. Each bound has a theorem
-- that it is enough. canonicalRoot's loop runs on one turn more than the cleaned path has bytes,
-- since every turn takes a component off the path. The checks that a context passes in a removal
-- are counted, so a removal may stop anywhere.
--
-- Not modelled: the start of processes, the pipes and the reaping of a child; notify, which sends
-- without waiting; the handshake and the interrupt of the app-server client; the loop of the sweep
-- over the entries of the root, the stamp's file and the names of trash; the tool handler and the
-- heartbeat of the MCP server; main. The prompt's text and the log lines are prose.
pub mod Prelude
pub mod State
pub mod AppServer
pub mod Review
pub mod GitRepo
pub mod Config
pub mod Report
pub mod Scratch
pub mod Mcp
mod Tests
