-- ===== src/Filesystem.antt =====
-- filesystem.cxx and filesystem.h, as built for a system that is not Windows.
pub mod Path
pub mod Directory
pub mod Locate
pub mod Access
pub mod Tests
