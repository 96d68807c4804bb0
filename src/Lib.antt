-- ===== src/Lib.antt =====
-- The backend of the support centre (backend/src, Rust): the parts that keep state of their own and
-- decide things, and the theorems that make them correct.
--
-- Parts and files
--   Locks          backend/src/locks.rs, KeyedLeaseLock: the holders behind a mutex, the waiting loop
--                  (fuel bounds its rounds), and the drop of a guard. Locks/Trace interleaves the
--                  critical sections of any tasks; Locks/Rounds and Locks/Contention have the laws.
--   RateLimit      backend/src/middleware/rate_limit.rs: the sliding windows per key, the client key
--                  from the request, and the middleware around it.
--   Queue          backend/src/domain/queue/mod.rs and worker.rs: the channel of jobs, retries that
--                  sleep, dead letters and statistics (JobQueue, process_job), in Queue/Trace as a
--                  state machine in which panics may poison the mutexes; Queue/Outbound is
--                  process_outbound, Queue/Outcome how it ends.
--   Hub            backend/src/realtime/hub.rs, hub/room_state.rs and hub/user_state.rs: HubInner with
--                  its connections, rooms, users and access decisions. Hub/Connections and Hub/Closing
--                  are the life of a connection, Hub/FanOut the broadcasts and the message history, Hub/Rooms the
--                  rooms and challenges, Hub/Users the accounts. Hub/Step is the hub as a state
--                  machine over all calls that change it.
--   Broadcast      backend/src/realtime/broadcaster.rs: BroadcastQueue and process_queue. Its events
--                  reach the connections through the hub.
--   Stores         backend/src/state.rs: the membership cache, the spacing of last-activity writes, the
--                  undo captures, the one-time authorization states and the recall markers.
--   Auth           backend/src/middleware/auth.rs with the claims of domain/auth/tokens.rs: positions
--                  and areas; Auth/Request is authenticate and the middlewares, over the stores.
--   Gate           backend/src/realtime/gate.rs: authorize, which opens connections of the hub, with
--                  the hub's cache of access decisions and the membership cache. Gate/Relabel is what
--                  it does not look at, Gate/Stale how long a decision lasts.
--   AutoReply      backend/src/domain/auto_reply/engine.rs: RuleCache, applicable_rules and the rows behind
--                  it; AutoReply/Hours is within_business_hours, AutoReply/Matching the conditions,
--                  AutoReply/Ledger reserve_attempt and the update of the ledger, AutoReply/Dispatch,
--                  AutoReply/Evaluate and AutoReply/Follow the rest. AutoReply/Attempts interleaves attempts over the ledger.
--   Latest         backend/src/realtime/latest.rs: LatestMessageCache and the reads through it;
--                  Latest/Refresh is refresh and warm_up, Latest/Coalesced a message that arrives while
--                  a refresh is under way.
--   Collab         backend/src/realtime/collaboration.rs: CollabState with its viewers, typing indicators
--                  and presence; Collab/Listing is what it reports.
--   Cookies        backend/src/middleware/cookies.rs: the cookies of a session; Cookies/Csrf is csrf.rs,
--                  the test of requests that change something.
--   Uploads        backend/src/domain/files/limiter.rs: the limits on concurrent and hourly uploads,
--                  and the guard that is dropped when an upload ends.
--   Json, Chars    what the program uses of serde_json and of string methods; a text is the list of
--                  its code points.
--   HashMap        std::collections::HashMap as an association list; HashMap/Laws and HashMap/Counts.
--   Prelude        names of the library, Boolean tests, lists measured by native numbers, and the
--                  interface Key of types whose values are compared.
--
-- How the code is represented
--   A function that locks a mutex and changes the state behind it is a function from the state to its
--   result and the new state: one critical section is one step. Where the code takes a lock twice
--   (remove_connection, to_conversation, process_queue), the steps are separate functions, and the
--   traces interleave them where this matters (Broadcast/Trace); for the two calls of the hub the two
--   sections stand as one step. So do, in authenticate and in the gate, the look-up of the memberships
--   and their storing (teams_of), with the query between them. Around the gate's look-up and storing of
--   an access decision, what other tasks do is an argument (Meanwhile of Gate). RateLimiter::check reads
--   the clock before it locks, the model with the lock; the theorems over several checks assume that
--   the locked sections run in time order. The time of Instant::now() is a number, in nanoseconds unless a
--   comment says otherwise, and an argument; so is the stored time text. Fresh identifiers (UUIDs) are
--   arguments, and no theorem assumes more of them than it says. Machine integers keep their
--   wrap-around (% 2 ^ w); usize counts of things in memory are plain numbers. A HashMap is walked in
--   the order of its list; a HashSet is a list.
--
-- Loops and fuel
--   The waiting loop of the locks runs on fuel, and acquire_total gives enough of it. Popping from the
--   front of a queue, printing a number and splitting into chunks take the length or the value as
--   fuel, and the theorems on them show that this reaches the result. All else is structural.
--
-- Parameters
--   Lower-casing, regular expressions, JSON texts, the messaging gateway and whether the row of a message can be updated, the work of a media job, the
--   delivery of a routed event and what other tasks do between two rounds of a lock are arguments of
--   the definitions that use them. The record Backend of Auth holds what is asked of the library for
--   signed tokens, of the dates and of the database; RuleTables, Schedules and Outside of AutoReply, and
--   the answers of Latest, are those of the queries there. A query that fails is an answer of its own.
--
-- Not modelled
--   The HTTP handlers and the SQL behind them (agents, teams, tags, customers, conversations,
--   messages, reports, analytics, notifications, sessions, channels), whose content is queries to
--   PostgreSQL; the parsing and ingestion of webhooks; the socket loops and the customer-side
--   channels; process_media; the monitoring center; the remote fan-out between instances; the
--   installer and the frontend.
pub mod Auth
pub mod AutoReply
pub mod Broadcast
pub mod Chars
pub mod Collab
pub mod Cookies
pub mod Gate
pub mod HashMap
pub mod Hub
pub mod Json
pub mod Latest
pub mod Locks
pub mod Prelude
pub mod Queue
pub mod RateLimit
pub mod Stores
pub mod Uploads
