-- ===== src/KeyCommands.antt =====
-- src/resp/command/key: the commands on keys of any type that stay in one database.
pub mod Lifetime
pub mod Names
