-- ===== src/Luacode.antt =====
-- internal/luacode: instructions of the Lua virtual machine and the line numbers of a function.
pub mod Op
pub mod OpCode
pub mod Instruction
pub mod LineInfo
mod Tests
