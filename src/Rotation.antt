-- ===== src/Rotation.antt =====
-- rotation.cxx and rotation.h: angles, quaternions and matrices.
pub mod Angle
pub mod Quaternion
pub mod Matrix
pub mod Tests
