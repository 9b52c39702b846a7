-- ===== src/Lib.antt =====
-- asql: a library that talks to SQL databases through coroutines, in C++ over Qt (src/).
--
-- The parts that are modelled, and where:
--
--   Migrations (src/amigrations.cpp) reads a file of numbered SQL scripts and takes a database from one
--   version to another. Migrations.Header is the regular expression of `fromString` as a matcher over the
--   code units of a line, Header.Grammar the pattern itself. Migrations.Parser is the loop of `fromString`:
--   a `Reading` holds its local variables, `Migrations` the fields of AMigrationsPrivate, with the two
--   maps as lists in the order of their keys. Migrations.Plan is `sqlFor`, `sqlListFor` and `nextQuery`,
--   and `walk`, what repeated `nextQuery` runs. Migrations.Session is `loadCoroutine` and
--   `migrateCoroutine` over a database that is a parameter: a world is the state of that database and the
--   log of what was sent to it; `round` is one turn of the outer loop, `in_transaction` what happens
--   between `begin` and the end of the transaction, `leave` that end.
--
--   Pool (src/apool.cpp) lends connections out. `request` is `deliverDatabase` and `give_back`
--   `pushDatabaseBack` in a pool that is there, `deliver_open` is PoolOpenDelivery::deliverOpen. What the
--   drivers, coroutines and receivers answer at the time of a call is an argument, `Env`, and the calls
--   that leave the pool are a list of effects. Pool.Registry is the hash of the pools of a thread and the
--   public functions over it. Pool.Inventory follows connections between the pool and its clients.
--   Pool.Queries is `exec`, `execMulti` and their variants, which pass a query on to a connection.
--
--   Cache (src/acache.cpp) keeps results by query and arguments. The coroutine `requestData` is cut at its
--   two waits: `request_data` runs up to the first, `got_database` goes on with the connection of the pool,
--   `got_reply` with the reply of the database. Cache.Ledger is a history of calls of a cache with a
--   database, Cache.Flaws two histories that lose an answer.
--
--   Transaction (src/atransaction.cpp) is the state that the handles of a transaction share, Delivery
--   (src/acoroexpected.h) what a coroutine awaits: one result, or the results of a query with several
--   statements. Delivery.Once and Delivery.Fifo put the awaiting coroutine beside it. A resumption is asked
--   for and runs later or at once, as `resumeCoroHandle` has it. Delivery.Guard is that function, with the
--   coroutines that are called or that an ATask goes on with meanwhile.
--
--   Rows (src/aresult.cpp) makes documents of a driver's result; a function for JSON, CBOR or a hash is the
--   same loop with another conversion of the values.
--
--   Tool (src/asql_migration.cpp) is the command line tool: its checks, exit codes and questions.
--
--   Postgres (src/adriverpg.cpp) is a connection of PostgreSQL: `Driver` holds its fields, the queue of its
--   queries, the clients that wait for it to open and, in `Link`, what it knows of the connection of libpq
--   with the log of its calls. Postgres.Sending is `exec`, `queryShouldBeQueued`, `runQuery` and the
--   doExec functions; Postgres.Serving is `done` and `nextQuery`, `finishConnection` and the taking of
--   results; Postgres.Opening is `open`, the phases of connecting, the handler of a readable socket and
--   the timer of pipeline mode; Postgres.Notifications the subscriptions. Postgres.Steps is what can
--   happen to such a connection, one step at a time. Postgres.Binding is the conversion of arguments to
--   parameters of libpq and Postgres.Values that of columns to values and documents.
--
--   Workers is the side of a caller's thread of the three drivers that work on a thread of their own
--   (src/ADriverSqlite.cpp, src/adrivermysql.cpp, src/ADriverOdbc.cpp): promises by their number, the
--   queries that wait for the worker, and the turns of both. Workers.Handles is the log of the calls of a
--   client library that make, use and free statements, Workers.Cached the hash of the statements that are
--   kept for prepared queries, Workers.Making and Workers.Calls what the workers of MySQL and ODBC have in
--   common, Workers.Grid the one list in which the results keep their rows.
--
--   Sqlite (src/ADriverSqlite.cpp) is that worker for SQLite: the binding of arguments, the rows of a
--   statement, `query`, `queryPrepared` and `queryExec`. Sqlite.Table is the order of values in a result.
--   Mysql (src/adrivermysql.cpp) is the worker for MySQL: Mysql.Binding is `mysqlBindParams`, Mysql.Columns
--   `mysqlFillRow` and `mysqlFetchStmtRows`, with the buffers that rows share, Mysql.Connecting `open`,
--   Mysql.Worker the calls.
--   Odbc (src/ADriverOdbc.cpp) is the worker for ODBC: Odbc.Binding is `bindParameters`, Odbc.Columns
--   `columnValue` and `readWCharColumn`, Odbc.Worker `fetchResults` and the calls.
--
-- A migration takes a connection with a transaction on it; the pool hands such connections out, the cache asks
-- it for them; what all rely on of a driver are the answers that are parameters here.
--
-- Bounds and fuel. Versions are integers; `toInt` answers 0 beyond an `int`, so the versions of a file are
-- within it. `rounds` and `walk` take fuel, since the outer loop of `migrateCoroutine` ends only when
-- there is no next query; a run upwards is given one round for each query of the file and two more. A
-- count of a pool is an integer, as it is in the code. A driver of PostgreSQL calls receivers of its clients
-- while it works through its queue, and they may call it back or let objects go: `next_query`,
-- `finish_connection` and the reading of results take fuel, and a run that is out of it is `runs_on`. Where
-- libpq accepts what is sent, two more than the length of the queue are enough for `next_query`; where the
-- receivers ask for nothing and let objects go at most, one more is for `finish_connection`. `query_exec` of
-- SQLite takes one more than the length of the text, since every statement it prepares takes at least one
-- byte of it.
--
-- Not modelled: how the worker of ODBC connects, the choice of a driver by its URL, the client libraries
-- themselves, the division of a text into lines by QTextStream, log output, clocks, the parsing of options
-- and the demos. libpq is the parameter `Libpq`, the client libraries of MySQL and ODBC are `Server`: the
-- answers that each gives to the calls logged so far. SQLite is what its functions give for a text and a
-- statement. What else the code uses of the rest is a parameter there.
pub mod Base
pub mod Cache
pub mod Delivery
pub mod Migrations
pub mod Pool
pub mod Mysql
pub mod Odbc
pub mod Postgres
pub mod Rows
pub mod Sqlite
pub mod Transaction
pub mod Tool
pub mod Workers
mod Tests
