-- ===== src/Commands.antt =====
-- common/schema/commands: the table of commands, and the validation of a command's parameters.
pub mod Table
pub mod Validate
