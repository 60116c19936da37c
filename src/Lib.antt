-- ===== src/Lib.antt =====
-- YCSB-cpp (MyYCSB_CPP), a benchmark of key-value stores: a driver (core/ycsbc.cc) reads properties,
-- sets up a workload (core/core_workload), and starts client threads (core/client.h), which run
-- the workload's inserts and transactions against a database. The database stands behind the
-- interface DB (core/db.h), is made by name in a factory (core/db_factory), and is wrapped
-- (core/db_wrapper.h) so that each call is timed and reported to shared measurements
-- (core/measurements). Keys, lengths and operations come from generators (core/*_generator.*).
--
-- Where each part is modelled, one module per class, with the functions' names in the spelling of
-- this library:
--   Prelude: lists, integers, words of 32 and 64 bits, strings as lists of bytes, results of calls
--     that may throw, runs that may be undefined, and the type `double` as a parameter (Float),
--     of which no law is assumed.
--   Utils: utils/utils.h (Hash, Text), utils/properties.h (Properties), utils/rate_limit.h
--     (RateLimit), utils/countdown_latch.h, utils/timer.h. Text/Numbers holds std::to_string,
--     std::stoi and std::stol.
--   Generators: the classes of core/*_generator.h and .cc. A random number is an argument of the
--     call that draws it; the shuffle is a parameter.
--   Measurements: BasicMeasurements of core/measurements.cc and the enum Operation. Overlap has the
--     accesses of the atomics in calls of Report that overlap, in the order of any schedule.
--   Db: the interface; Db/Wrapper is DBWrapper, Db/Factory DBFactory, Db/Basic BasicDB. Db/Table is
--     no code: it is the table of records that core/db.h promises, and what it means that a binding
--     serves requests as this table does.
--   Workload: CoreWorkload. Builders and Config are Init, Values the random records,
--     Draws the loops that draw a key, Transactions the operations.
--     A run passes the workload, the random state and the database along, and ends, throws, is
--     undefined, or is out of fuel.
--   Client: the actions of the two thread functions, the division of the operations among the
--     threads, and the threads together at the barrier of the warmup (Barrier), as a step relation.
--   Leveldb: leveldb/leveldb_db.cc. Row is the format of a record, Single and Composite the
--     operations of the formats, Instance the shared handle, Options GetOptions, Dispatch the method
--     pointers. LevelDB itself is the parameter Kv, and KvLaws what its documentation says. Lsbm has
--     the operations of lsbm/lsbm_db.cc that are others.
--   Rocksdb: rocksdb/rocksdb_db.cc, over the same Kv. Merge is the operator and MergeSingle, Single
--     the other operations, Options GetOptions, Instance Init and Cleanup, Lorc the operations of
--     rocksdb_lorc/rocksdb_db.cc, and Topling the scan of toplingdb/toplingdb_db.cc, whose other
--     operations are those of Lorc; terarkdb/terarkdb_db.cc repeats them.
--   Lmdb: lmdb/lmdb_db.cc. Store is LMDB as the parameter Mdb with its laws, Transactions the
--     operations, Instance Init and Cleanup.
--   Wiredtiger: wiredtiger/wiredtiger_db.cc. Store is WiredTiger's cursor as the parameter Wt with
--     its laws, Cursor the operations, Instance Init and Cleanup, with the configuration in Config.
--   Sqlite: sqlite/query_builder.h (Queries) and sqlite/sqlite_db.cc, over the parameter Sqlite.
--     Statements has the operations, Instance OpenDB, SetPragma, PrepareQueries, Init and Cleanup.
--   Driver: core/ycsbc.cc. CommandLine is ParseCommandLine, Main the main function as the stages that
--     it runs, each phase with the actions of its threads, RateFile RateLimitThread, with what
--     std::ifstream does at the end of a file and where there is no number.
--   Tests: runs at concrete inputs.
--
-- The bindings meet the table of Db/Table through one interface, Operations: each binding's Refines
-- ties the states of its store to tables, and shows its requests one by one. RocksDB, LMDB and
-- WiredTiger keep the rows of Leveldb/Row, whose code their files repeat.
--
-- Asserts are off, as in a release build. A method that holds a mutex is one step, and in Overlap an
-- access of one atomic is. The loops that wait for a key the insert sequence has reached run on fuel:
-- the draws are random, so that no bound holds for all of them, and any fuel above the number of the
-- first accepted draw is enough. The readers of rows take the length of the data as fuel, which is
-- enough since each round takes eight bytes at least. The reader of rates has two more than the length
-- of its file. All other loops are structural.
--
-- Not modelled: the options of RocksDB-LORC, ToplingDB and TerarkDB, which only set fields of their
-- libraries; HdrHistogramMeasurements, whose work is done by its library; the status thread and the
-- output of the main function; the memory of the objects, which are made once and live as long as the
-- program.
pub mod Prelude
pub mod Utils
pub mod Generators
pub mod Measurements
pub mod Db
pub mod Workload
pub mod Client
pub mod Leveldb
pub mod Rocksdb
pub mod Lmdb
pub mod Wiredtiger
pub mod Sqlite
pub mod Driver
pub mod Tests
