-- ===== src/Migrations.antt =====
-- AMigrations: src/amigrations.cpp and src/amigrations.h. The children model the header pattern, the
-- parser of a migrations file, the choice of the next query and the coroutines over a database.
pub mod Header
pub mod Parser
pub mod Plan
pub mod Session
