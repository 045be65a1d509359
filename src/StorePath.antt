-- ===== src/StorePath.antt =====
-- zbstore/path.go: store directories and store paths.
pub mod Posix
pub mod Elements
pub mod Clean
pub mod Paths
pub mod Directory
pub mod Parsed
pub mod Objects
pub mod Inside
pub mod Behind
pub mod Within
pub mod References
pub mod ContentAddress
pub mod Made
pub mod Sample
mod Tests
