-- ===== src/Lifetime.antt =====
-- lifetime.h: containers that manage how long their members live.
pub mod Anchor
pub mod Deleter
pub mod Sink
pub mod Cleaner
