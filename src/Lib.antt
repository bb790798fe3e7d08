-- ===== src/Lib.antt =====
-- KosDB: a LevelDB database server with transactions, a write-ahead log, caches and shards.
--
-- The parts that are modelled, and the files that model them:
--
-- * database.py, class Database. Database.antt has the state of a session (current_db, _db,
--   _transaction_active, _transaction_changes, _transaction_binlog and the queue of the binary
--   log), the transaction calls, and creating, dropping and switching databases; Database/Tables.antt
--   has create_table and drop_table, Database/Rows.antt insert, insert_with_columns, _insert_row and
--   the upkeep of indexes and UNIQUE columns, Database/Queries.antt the scan of a table and delete,
--   Database/Updates.antt update, Database/Select.antt select by scan and by index with its
--   pages and columns, the order of rows a parameter, and Database/Users.antt users, passwords and
--   privileges, with SHA-256 and the salts as parameters. All of it stands on the interface of
--   Level.antt, which is what the program uses of plyvel: point reads and writes, atomic batches
--   and prefix iterators, with their documented laws.
--   Level/Memory.antt is a store in memory that meets them. Values are modelled by what
--   json.loads returns for them, cells by their `str`.
-- * query_cache.py. QueryCache.antt is the class QueryCache, its OrderedDict a list of entries with
--   the oldest use first; QueryCache/Executor.antt is CachedQueryExecutor over a database that is a
--   parameter. The shortened SHA-256 is the parameter `digest`, and the case of letters is that of
--   ASCII.
-- * command_splitter.py. CommandSplitter.antt is the class CommandSplitter, its loop one function
--   for each round, and split_commands_legacy beside it.
-- * shard_router.py. ShardRouter.antt is the class ConsistentHashRing, ShardRouter/Ranges.antt the
--   class RangePartitioner and ShardRouter/Router.antt the class ShardRouter over both; the number
--   made from the MD5 of a text is the parameter `hash`.
-- * distributed_tx.py. TwoPhase.antt has the data, TwoPhase/Coordinator.antt the class
--   TwoPhaseCommitCoordinator, its Manager the class DistributedTransactionManager, and
--   TwoPhase/Participants.antt the class ShardParticipant. The phases are also there block by
--   block, as the lock is given up between them, and TwoPhase/Coordinator/Threads.antt runs the
--   blocks of two threads in turn. Identifiers come from the parameter `uuid`, the n-th call of
--   uuid.uuid4, and times are arguments.
-- * write_ahead_log.py. Wal.antt is the class WriteAheadLog over a directory of files, which are
--   lists of whole records; Wal/Manager.antt is TransactionManager; Wal/Analysis.antt and
--   Wal/Recovery.antt are the three passes of WALRecovery. The checksum and the size of a record in
--   bytes are parameters, and so is what a callback does.
-- * connection_pool.py. ConnectionPool.antt is borrowing and returning of the class ConnectionPool,
--   ConnectionPool/Maintenance.antt its construction, health checks, clean-up, statistics and
--   shutdown, ConnectionPool/Registry.antt the named pools. The factory of connections and the
--   validation of one are the parameters `make` and `validate`, and times are arguments.
-- * prepared_statements.py. PreparedStatements.antt has the patterns, prepare and the clean-up of
--   PreparedStatementManager, PreparedStatements/Execution.antt execute, deallocate and the managers
--   of sessions. Identifiers of uuid4 and times are arguments.
-- * query_plan_cache.py. PlanCache.antt is the class QueryPlanCache with its index from tables to
--   hashes; SHA-256 is the parameter `digest`, and what a parsed query is, the parameter `Plan`.
--
-- Shared: Base (tests, lists, results), Dict (Python's dict, by insertion order), Text (texts as
-- lists of code points). Loops are structural recursion over the list they go through, so there is
-- no fuel but that of `str` of a number, which has one step more than the number.
--
-- The parts meet in few places. The database calls none of the others; sharding.py uses the router;
-- the query cache, the coordinator, the write-ahead log and the command splitter are called from
-- outside. So each part is proved against the interface it has: the store, the wrapped database,
-- the callbacks.
--
-- Not modelled: sockets, threads of the binary log and of the connection pool, files as bytes (the
-- record format of the write-ahead log with its torn tails), the parsing of commands and the text
-- of replies, snapshots, the order of rows by their cells (_sort_results and the external sort,
-- which are the parameter sort_results of a select), and set_shard_active, which changes a Shard
-- that the ring and the ranges share; and the other components, among them replication, change
-- data capture, session recovery, and the search and time-series modules.
mod Base
pub mod Dict
pub mod TwoPhase
pub mod Wal
pub mod Text
pub mod Level
pub mod Database
pub mod QueryCache
pub mod CommandSplitter
pub mod ConnectionPool
pub mod PreparedStatements
pub mod PlanCache
pub mod ShardRouter
