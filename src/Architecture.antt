-- ===== src/Architecture.antt =====
-- planning/check_architecture.py: the boundaries and the dependency graph of the Lua modules.
pub mod Lexer
pub mod Imports
pub mod Cycles
pub mod Check
mod Tests
