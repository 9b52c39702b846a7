-- ===== src/Tests.antt =====
-- Small runs of the models of src/, and the theorems at inputs that meet their hypotheses.
mod Text
mod Files
mod Sessions
mod Caches
mod Deliveries
mod Documents
mod Pools
mod Postgres
mod Values
mod Workers
mod Sqlite
mod Mysql
mod Odbc
mod Tools
mod Queries
