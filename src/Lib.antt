-- ===== src/Lib.antt =====
-- Drummer: the placement and repair of Raft shards.
--
-- Drummer keeps a replicated database (db.go) of the Raft shards that a deployment defines, of what the
-- nodehosts report, and of the requests that wait for them. Each nodehost reports its replicas from time to
-- time. A report updates the image of the shards (shardimage.go) and that of the nodehosts (nodehostimage.go),
-- and the answer to it carries the requests that wait for the nodehost. A scheduler (scheduler.go) reads a copy
-- of the DB, chooses nodehosts at random (filter.go, selector.go), and writes requests back: to launch the
-- shards at first, and later to delete, create, add, restore or kill replicas.
--
-- Several drummers run beside each other, each with a server (server.go) that proposes commands to the DB and
-- reads it through the NodeHost of dragonboat. They elect a leader by votes on one record of the DB
-- (election.go); its worker (drummer.go) proposes the ticks and runs the scheduler. The client of a nodehost
-- (client/nodehost.go) sends the reports, of which it leaves out the memberships that drummer has, and carries
-- the requests out. The coordinator of lcm/manager.go runs processes that read and write, and records the
-- history for a check of linearizability.
--
-- The files, and the code that they are about:
--   Base            what the others share: lists, maps, bytes, results, 64-bit words, wire formats
--   Pb              drummerpb/drummer.pb.go, the messages
--   Settings        settings/soft.go, the constants
--   ShardImage      shardimage.go. Sync has syncShard and getShard, Update has update and doUpdate, Repair the
--                   views that the scheduler repairs by. Replicas, Merge, Invariant, Growth and Health prove.
--   NodeHostImage   nodehostimage.go. Hosts proves.
--   Filter          filter.go. Laws proves.
--   Selector        selector.go. Choice proves.
--   Db              db.go. State has the struct DB and its readers, Operations the updates, Snapshot the
--                   snapshots, Lookups the lookups, ShardStates toShardState of server.go. KeyValue, Launch, Frame, History,
--                   Mailbox, Cluster and Deadline prove.
--   Scheduler       scheduler.go. Repairs, Restores and Launches have its three tasks. Laws and Indices
--                   prove.
--   Validation      validation.go, the check of the requests
--   Cycle           drummer.go, schedule and maintainShards. Kinds and Launch prove what the DB makes of them.
--   Raft            the interface of the NodeHost of dragonboat, and what the server relies on
--   Server          server.go. Requests has what clients, nodehosts and workers call. Laws and Moves have what
--                   a call says of the DB, Finality and Settled what becomes of the deployment id, Agreement proves.
--   Sessions        drummer.go, sessionUser
--   Election        election.go. Moves, Leaders, Ownership and Detection prove.
--   Worker          drummer.go, the rounds of the worker. Deployment has setDeploymentID. Reads, Guards and Rounds
--                   prove.
--   Client          client/nodehost.go. Requests has the handlers of requests, Dispatch the workers that call
--                   them. Sizes and Reports prove what the image makes of a report,
--                   Handlers what a request can do.
--   Lcm             lcm/manager.go and lcm/process.go. Log has the lines of the logs, Histories proves.
--   Tests           samples, runs and the theorems at concrete inputs
--
-- How the code is modelled:
--   - A method that changes its receiver returns the new state. A panic ends the process: it is a value `panic`
--     of `Outcome`, and no state comes back with it.
--   - A Go map is a list of entries with distinct keys. Where the code ranges over a map, the model takes the
--     entries in the order of the list; the theorems hold for every such order.
--   - A `uint64` is a natural number, and a sum or a difference that can leave its range is taken modulo
--     `2 ^ 64` (`add_u64`, `sub_u64`). An `int` that counts the elements of a list cannot.
--   - A string and a byte slice are lists of bytes.
--   - The random source is not part of the repository: it is the list of the values that its calls return. A
--     call takes the values that are left and returns those that it leaves; the loop of the selector consumes
--     that list, so it needs no other fuel.
--   - Protobuf and JSON are not part of the repository either: a `Codec`, the format of a protobuf message, is a
--     pair of functions for which a message that is encoded decodes to itself. Of JSON, in which the snapshots and
--     the copy for the scheduler are written, nothing is assumed. `sort.Slice` is a function that keeps the length of a list.
--   - dragonboat is not part of the repository: `NodeHost` is a parameter, whose calls act on a world that has
--     the DB once all that is committed is applied, and the log of the commands that it has applied. Any of its
--     calls may let time pass for others. `IsLawful` states what its documentation says: the DB only takes
--     commands, a read that returns is linearizable, and a proposal that returns was applied during the call.
--     A `Moment` is a DB with its log, and `Grows` says that one moment comes after another: since the log is
--     the one of the world, a moment between two worlds is what the DB really was then. A call of the server returns, fails or panics
--     (`Reply`). The local NodeHost of the client is `LocalNodeHost`, and a drummer as the client sees it is
--     `DrummerApi`.
--   - A loop that waits for something outside, such as the removal of data or an id for the deployment, is
--     given the number of its tries or a list of what it draws, and ends as `waiting` or `none` where they do
--     not suffice. The loop of getSession has the three tries of the code.
--   - Workers that run at once are an indexed type of their orders (`Handled`, `Run`). The goroutine of a process
--     of lcm is a field of the process, and takes its steps one at a time (`advance`).
--   - Histories of the DB are an indexed type, `Reach`: the sequences of the commands that it accepts.
--
-- What is not modelled: logs, timers, locks, timeouts, status codes of gRPC, connections and their pool, the
-- loading of plugins, configuration files and the start of the Raft library, which do I/O; generated code; the
-- copy of porcupine; the fixtures and hooks of the tests.
pub mod Base
pub mod Pb
pub mod Settings
pub mod ShardImage
pub mod NodeHostImage
pub mod Filter
pub mod Selector
pub mod Db
pub mod Scheduler
pub mod Validation
pub mod Cycle
pub mod Raft
pub mod Server
pub mod Sessions
pub mod Election
pub mod Worker
pub mod Client
pub mod Lcm
pub mod Tests
