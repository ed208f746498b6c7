-- ===== src/StringCommands.antt =====
-- src/resp/command/string: the commands on strings.
pub mod Basic
pub mod Counter
pub mod Options
