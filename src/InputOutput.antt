-- ===== src/InputOutput.antt =====
-- inputoutput.cxx and inputoutput.h: the streams, as built without WINDOWS. Format is the printing
-- and reading of numbers by the C++ library, Memory is MemoryStream, Standard the console streams,
-- and File FileOutput and FileInput.
pub mod Format
pub mod Memory
pub mod Standard
pub mod File
pub mod Floats
pub mod Tests
