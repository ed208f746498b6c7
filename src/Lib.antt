-- ===== src/Lib.antt =====
-- unit-redis-ness: a Redis server in TypeScript, for unit tests.
--
-- The program. A socket's bytes are parsed into a request (a command's name and its parameters).
-- The server looks the command up in a table (src/resp/processor/command-suite.ts); each command
-- object stands in a wrapper (src/resp/processor/command-wrapper.ts) that counts the parameters,
-- queues the request inside MULTI and EXEC, and else runs the command on the session's database.
-- A database (src/resp/data/database.ts) is a dictionary (src/dictionary.ts) of values with an
-- optional deadline; a read removes an entry that has lapsed. A command replies with a token
-- (src/resp/protocol/redis-token.ts), which is serialised to the socket.
--
-- The model. JavaScript's own conversions (Number, parseInt, String, + and *, toLowerCase) are a
-- record, `Js` of Number.antt, that the definitions take as an argument; `JsLaws` states what is
-- relied on for integers in the safe range. Examples/Decimal.antt gives an instance. A command is a
-- function of a request, which carries the clock, on a store (one database and the events emitted
-- so far): it replies or throws, and what was written before a throw stays. Objects that the source
-- shares are written back where the source changes them in place.
--
-- Files, by the code that they model:
--   Number, Outcome       the language: numbers as commands meet them, replies and thrown errors.
--   Dictionary            src/dictionary.ts
--   DatabaseValue         src/resp/data/database-value.ts, data-type.ts, the state of sorted-set.ts
--   Database              src/resp/data/database.ts; Database/Laws has the view, what a client can
--                         see at an instant, against which every command is stated.
--   Token                 src/resp/protocol: the tokens
--   Command               src/server/default-request.ts and the monad of the commands
--   ListCommands          src/resp/command/list: Push, Pop, Slice (Array.slice and splice), Index,
--                         Range and Rem, the writing back of a list in Save
--   StringCommands        src/resp/command/string: Basic, Options (SET) and Counter (INCR, INCRBY);
--                         Options/Grammar is a grammar of the options of SET, apart from its loop
--   KeyCommands           src/resp/command/key: Lifetime (EXPIRE, PEXPIRE, TTL) and Names
--   SetCommands           src/resp/command/set: SADD, SREM, SCARD, SISMEMBER, SMEMBERS; in Several
--                         SDIFF, SUNION, SINTER, their stores, and SMOVE
--   HashCommands          src/resp/command/hash
--   SortedSet             src/resp/data/sorted-set.ts. Heap has the nodes, as a list in which an
--                         address is a place, and the search over the levels; Insert, Remove,
--                         Change and Listing have the operations. Entries is the contract, a list
--                         of entries in order. Chain, Search, Writes, Link, Shape, Insertion and
--                         Removal are about the pointers, Refinement about the contract
--   SortedSetCommands     src/resp/command/sset: ZCARD and ZSCORE
--   ServerCommands        src/resp/command/server: PING, ECHO, QUIT; null-command.ts
--   DatabaseCommands      src/resp/command/db, and move-command.ts
--   Session               src/server/session.ts and default-session.ts
--   World                 src/server/resp-server-context.ts: the databases, and one session
--   Processor             src/resp/processor/command-wrapper.ts
--   Transaction           src/resp/command: multi-, discard- and exec-command.ts
--   Protocol              src/resp/protocol/resp-serialize.ts; Protocol/Reader is a reader of the
--                         protocol, written apart from it
--   Suite                 src/resp/processor/command-suite.ts, the table; Suite/Run: get_command and
--                         receive, getCommand and receive of src/server/resp-server.ts, from the
--                         parsed message to the reply; Suite/Reach: the worlds that messages reach
--   Soundness             what is well formed of the stored data; the modules named Soundness below
--                         the components take their commands, one after another. Those
--                         named Reading are about the commands that only read
--   Examples              runs at concrete inputs.
--
-- Fuel. The loops of the code run over lists, or over the 16 databases. EXEC runs the queued
-- commands through the table it stands in itself, so `run` counts the depth; Suite/Queue is about
-- how much of it a run needs. The reader of the protocol takes the size of a reply. A walk along a
-- level of the skip list, and the loops over all nodes, take one more than the length of the set.
--
-- Not modelled: sockets, timers, the event emitter and what waits on it (blocking pops,
-- subscriptions), Lua scripts, logging, but for a log call that throws; of the sorted set the
-- ranks, the ranges and the option unique, and the commands but ZCARD and ZSCORE; KEYS and
-- RANDOMKEY, CLIENT, INFO and TIME. In the table these are the objects `other`, and what they do
-- is the argument `others` of `run`; a theorem about all commands asks of `others` what it says of
-- the rest. The clock's readings during one command are taken to agree. Two fractions are compared
-- by their integer parts, but in the sorted set, which takes the order of numbers and that of
-- texts as the record `Order`, with the laws `OrderLaws`; Examples/Ordering.antt gives an
-- instance. What Math.random answers is a list of draws, one list for each node that is made. The
-- loop of EXEC is taken in sequence, as the commands of the model do not wait. The sum of the clock
-- and a time to live is the exact integer, as that of doubles is below 2^53, and the parseInt of a
-- deadline is taken to give it back, as it does below 1e21; a time beyond that is not modelled.
-- Nor are the keys and command names that a plain object finds in Object.prototype, such as
-- `constructor`.
pub mod Command
pub mod Database
pub mod DatabaseCommands
pub mod DatabaseValue
pub mod Dictionary
pub mod Examples
pub mod HashCommands
pub mod KeyCommands
pub mod ListCommands
pub mod Number
pub mod Outcome
pub mod Prelude
pub mod Processor
pub mod Protocol
pub mod ServerCommands
pub mod Session
pub mod SetCommands
pub mod SortedSet
pub mod SortedSetCommands
pub mod Soundness
pub mod StringCommands
pub mod Suite
pub mod Token
pub mod Transaction
pub mod World
