-- ===== src/ListCommands.antt =====
-- src/resp/command/list: the commands on lists that do not block.
pub mod Save
pub mod Push
pub mod Pop
pub mod Slice
pub mod Index
pub mod Range
pub mod Rem
