-- ===== src/Lib.antt =====
-- RediCraft server: a model of the C++ program under RediCraft-Server/ and theorems on it.
--
-- The program is a key-value store with texts, hashes, lists and sets that clients reach by a line
-- protocol. main reads a configuration, makes the server, starts its replication and clustering
-- and accepts clients. A session reads bytes, the parser makes a command of them, and the session
-- calls the storage and writes the answer.
--
-- Files and code:
--   Storage        include/storage.h; is_expired, remove_expired of src/storage.cpp
--     Strings, Hashes, Lists, Sets, Expiry    the methods of src/storage.cpp, one function each;
--                  Lists.Queue has a list that clients use as a queue
--     Locks        the mutex calls of those methods; Locks.Threads has several threads on them
--     Access       ping and the access to the tables
--     View         what a client can see of a table at a time
--     Invariant    what the tables hold: each key, field and member once, no empty set, and any
--                  predicate that all texts of the storage have
--     Order        storages that hold the same items in another order
--   Parser         include/parser.h, src/parser.cpp; Parser.Tokens is its loop over the words,
--                  Parser.Meaning compares it with the names and arguments of the commands
--   Session        include/session.h, src/session.cpp; Session.Replies has the answers
--     Calls, Cases    the methods that a session calls, as a record, and the switch over it
--     Errors       which commands are refused
--     Types        the types of the answers, by command
--     Decode       a client that takes the listings apart again
--     Order        handle_command on storages that differ in the order of the maps
--   Spec           the abstract store: four functions from keys to items, which no method cleans up.
--                  It fills the record of Session.Calls, as the storage does; Spec.Respond and
--                  Spec.Refines compare what clients are answered by the one and by the other
--   Config         include/config.h, src/config.cpp; Config.Accessors has the getters and setters
--   Persistence    include/persistence.h, src/persistence.cpp; Persistence.Background has what runs
--                  in threads, Persistence.Commands saves what handle_command has stored
--   Cluster        include/cluster.h, src/cluster.cpp; Cluster.Loops has its loops
--   Replication    include/replication.h, src/replication.cpp; Replication.Master and
--                  Replication.Slave have the loops of the two sides
--   Sockets        what the loops get from asio
--   Server         include/server.h, src/server.cpp; Server.Clients has its sessions,
--                  Server.Answers what all clients are answered, Server.Typed of which types,
--                  Server.Decoded what a client reads back from the listings,
--                  Server.Unordered the server over storages up to order, as a quotient,
--                  Server.Lifecycle its managers behind starts and stops, Server.Failures its
--                  destructor; Server.Startup and Server.Main are src/main.cpp
--   Benchmark      src/benchmark.cpp
--   Prelude, Number, Table, Lines    what the C++ library gives the program: bytes, 64-bit
--                  integers, number conversions, std::unordered_map, lines of a file
--   Tests          runs on a small storage
--
-- State is passed explicitly: a method takes the storage and returns its result with the storage
-- that it leaves. A reading of std::chrono::steady_clock is an argument, in nanoseconds: `Readings`
-- has one for each of the four tables, in any order of size, and `Clock` also the one at the head of
-- expire and ttl. `Outlives now later k m` says that what table m holds live at k at `now` has not
-- expired at `later`; it holds of a key with no expiry.
--
-- Bounds and fuel. A `long long` is an integer with its wrap-around at 64 bits written out (wrap64),
-- also where C++ leaves overflow undefined. Sizes are numbers. The digits of a number are printed
-- with the number itself as fuel, which is at least their count; that no value is cut off is part of
-- the proof that stoll reads it back. All other functions are structural. The hash of a key is
-- computed modulo 2^64 with signed char, as on x86.
--
-- An unordered_map is the list of its entries. The theorems hold for every such list, so for every
-- order of iteration that the library may choose; assigning a new key puts its entry last. The
-- fields of a hash and the members of a set are answered in the order of their lists.
--
-- A loop that runs until a flag is cleared is a function of the list of its rounds: what each accept,
-- read, ping or save meets. The list ends where the flag is found cleared, so a theorem for every
-- list is one for every moment at which the loop is told to stop.
--
-- Outside the model: sockets, threads, asio, the standard streams. What they answer is an argument:
-- the bytes of a read, whether a listener or a file could be opened, the outcome of an exchange with
-- a node. But for the mutexes (Storage.Locks.Threads), threads that touch the same data at once are
-- not modelled: handlers, rounds and saves run one after the other, and a save of the automatic loop
-- ends within the 30 seconds for which the loop waits. Of the threads, those in master_threads_ and
-- cluster_threads_ and those of main are counted; the detached threads of the connections that the
-- managers accept are not. A join is taken to return. The times that the benchmark prints are not
-- modelled. Storage.Locks apart, the methods are modelled without their locks: what they do to the
-- tables when they return. The buffer of a session takes 1024 bytes a read; the model takes any
-- number.
pub mod Prelude
pub mod Number
pub mod Table
pub mod Lines
pub mod Sockets
pub mod Storage
pub mod Parser
pub mod Session
pub mod Spec
pub mod Config
pub mod Cluster
pub mod Replication
pub mod Persistence
pub mod Server
pub mod Benchmark
mod Tests
