-- ===== src/Lib.antt =====
-- A model of SpannerPaxos, a replicated log whose groups elect a leader with leases on a clock of
-- bounded uncertainty. The repository's core, spx_core, is one state machine per group member: it
-- takes events one at a time (network requests and responses, timers, the end of the lease), hands
-- each to the role that the member has (follower, pre-candidate, candidate or leader), and gets back
-- the next role. All roles work on one shared context, which holds the log, the term, the lease and
-- the committed slot. spx_lib has the clock, the write-ahead log and the countdown clock that they
-- use, the runners that start and stop background workers, and a dispatcher of tasks. spx_app is the
-- server around them: its gRPC service turns calls into events and waits for the answers, and its
-- dispatcher sends requests to the other members and turns their responses into events.
--
-- The files, and what they model:
--   Base            shared names: Boolean tests, sums that wrap, lists over the native numbers, how
--                   a handler ends (Result), and the lemmas on minima and sorted lists.
--   Map             BTreeMap and HashMap as association lists in key order, and their laws.
--   TrueTime        spx_lib/src/true_time/true_time.rs: now, before, after, commit_wait,
--                   and chrono's sums; TrueTime/Range says when these panic.
--   Wal             spx_lib/src/write_ahead_log/wal.rs: WriteAheadLog. Wal/Writes has the log as a
--                   function from slots to entries, Wal/Queries the queries by term.
--   CountDownClock  spx_lib/src/count_down_clock/count_down_clock.rs: the operations, and `wake` for
--                   one turn of the background task.
--   Messages        spx_core/src/messages, command.rs, event.rs, dispatcher.rs.
--   Context         spx_core/src/context: PaxosSharedContext and LeaseState. Context/Progress says what
--                   only ever grows in it.
--   Watchers        the four watchers of spx_core/src/context, and the interval timers of
--                   spx_core/src/roles/leader.rs.
--   Follower        spx_core/src/roles/follower.rs and util.rs: the handlers for votes (Follower/Ballots),
--                   for accept requests (Follower/Entries), and what campaigns share
--                   (Follower/Campaigns). Theorems: Follower/Votes, Writes, Replication, Anchors,
--                   Progress.
--   Leader          spx_core/src/roles/leader.rs and spx_core/src/models/log_position.rs: the state
--                   (Leader/State), requests (Leader/Requests), writes and timers (Leader/Writes),
--                   responses (Leader/Answers). Theorems: quorums and the lease (Leader/Quorum),
--                   responses (Leader/Responses, Leader/Progress), when the handler of accept responses
--                   returns (Leader/Dispatch, Contacts), what heartbeats promise (Leader/Promises), and the
--                   check for requests without an answer (Leader/Timeouts).
--   Replication     a leader's request taken by a follower.
--   Candidate       spx_core/src/roles/candidate.rs; Candidate/Recovery has the recovered entries,
--                   Candidate/Pending and Candidate/Progress what a vote response keeps,
--                   and Candidate/Terms the lease of a candidate from its requests to its win.
--                   Follower/Boards, Candidate/Boards and Leader/Boards: the entries for the peers.
--   Leases          the lease of a leader against those of the followers that it rests on.
--   PreCandidate    spx_core/src/roles/precandidate.rs.
--   Roles           the `handle_event` of the four roles, one child each, and PaxosState of
--                   spx_core/src/state_machine/state.rs.
--   StateMachine    PaxosState::process_event of that file: elections (StateMachine/Elections, Leaders,
--                   Answers), what an event never takes back (StateMachine/Climbs, Progress) and what it keeps
--                   well formed (there, in StateMachine/Collected and, for the boards, in
--                   StateMachine/Boards), and which events
--                   cannot panic (StateMachine/Panics).
--   Cluster         a group of members: each step one member processes one event.
--   EventLoop       the loop of spx_core/src/state_machine/mod.rs, one poll of its select a turn: what a
--                   turn does (EventLoop/Turns, Panics), what becomes of the queue (EventLoop/Queue),
--                   which events a run processes and in what order (EventLoop/Trace), and what a run
--                   keeps (EventLoop/Terms, EventLoop/Runs, and EventLoop/Boards for the boards of a leader).
--   WorkerRunner    spx_lib/src/worker_runner: runner.rs, run_status.rs, worker.rs. Theorems:
--                   WorkerRunner/Lifecycle.
--   WorkerRunnerManager  manager.rs there. Theorems: WorkerRunnerManager/Shutdown.
--   TaskDispatcher  spx_lib/src/task_dispatcher. Theorems: TaskDispatcher/Outputs.
--   Proto           spx_app/src/grpc/util/proto_conversions: accept requests and vote responses (Proto),
--                   campaigns (Proto/Campaigns), the other answers and client writes (Proto/Answers);
--                   what arrives is in Proto/RoundTrips and Proto/Arrivals.
--   GrpcService     spx_app/src/grpc/paxos_service.rs.
--   GrpcDispatcher  spx_app/src/grpc/paxos_dispatcher.rs and spx_app/src/configs: which members a request
--                   goes to (GrpcDispatcher/Reach), which clients there are (GrpcDispatcher/Clients), and a
--                   request and its answer between a dispatcher and a service (GrpcDispatcher/Calls).
--   Tests           the theorems at concrete inputs.
--
-- How the code is read. A handler is a function from the role, the request and the context to what
-- it returns, the new role and context, and the actions that it takes, in order (Action). An `Err`
-- and a panic are results of their own; what a handler did before one of them is not kept, since
-- `start` then ends the member. A time is the number of nanoseconds since chrono's earliest date; a
-- Clock numbers the readings that a handler makes, with any values. A sum or difference of chrono
-- that leaves its range of dates is a panic, but for the readings themselves: a reading is taken to be at
-- least the uncertainty away from both ends. `u32` and `usize` sums wrap, as
-- in a release build. A Uuid is a number. The order of a HashMap is taken to be that of the keys. A
-- Notify is the permit that it may hold. Dropping a role cancels its countdown clock, which goes with
-- the role. Output on the console is left out. The one recursion on fuel is that of commit_wait,
-- whose theorem gives the fuel that is enough.
--
-- The loop is read poll by poll. A Moment says what there is at one poll: the events and signals that
-- have come in, the readings of the token in the order in which the branches make them, and the clock.
-- A turn is one poll; a branch that is taken runs to its end before the next poll, as in the source,
-- since handlers are awaited inside the branch. commit_wait looks at the clock when it has just begun
-- and when its sleep is over, which the fields `fresh` and `slept` say. A panic ends the member.
--
-- Parameters. The codec of the ids in Proto is a parameter, of which the theorems assume that it
-- reads what it writes. The dispatcher of the core is one Boolean function per request, which says
-- whether the request went out, without any assumption. In GrpcDispatcher, tonic's client is a function
-- for each call, and making one may fail. In WorkerRunner, tokio is the record Runtime: what it keeps,
-- its tokens and its tasks; the theorems assume that a cancelled token says so and stays cancelled, and
-- that a task that panics is an error to who joins it. The polls of stop are a list, and one poll is
-- proved to be enough. In a group, requests, timers and pre-vote and accept responses
-- may come at any time with any content, a vote response only if some member has sent it, and the
-- environment may change a member's context between events.
--
-- Not modelled: the texts of log messages, binding and serving the gRPC listener and connecting to
-- another member (network input and output), main, which connects the parts, and the generated code of
-- spx_protocol.
pub mod Base
pub mod Map
pub mod TrueTime
pub mod Wal
pub mod CountDownClock
pub mod Messages
pub mod Context
pub mod Follower
pub mod Leader
pub mod Replication
pub mod Candidate
pub mod Leases
pub mod PreCandidate
pub mod Roles
pub mod StateMachine
pub mod Cluster
pub mod Watchers
pub mod EventLoop
pub mod WorkerRunner
pub mod WorkerRunnerManager
pub mod TaskDispatcher
pub mod Proto
pub mod GrpcService
pub mod GrpcDispatcher
pub mod Tests
