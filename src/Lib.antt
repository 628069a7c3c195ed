-- ===== src/Lib.antt =====
-- ren-general: a model of the general-purpose C++ library of this repository, with proofs.
--
-- The library is a set of small parts that programs link against; most stand alone. Paths
-- (filesystem.cxx) carry the log's location (annals.cxx), whose messages go through the FileOutput
-- and StandardStream of inputoutput.cxx, and throw the errors of exception.h; the timer reads the
-- clock (both in time.cxx). Each part is a tree of modules here:
--   Exception      exception.h, exception.cxx: the classes that are thrown. A call comes to a Result: a
--                  value, a thrown error, a failed assertion (abort), or fuel that ran out.
--   Filesystem     filesystem.cxx, filesystem.h. Path: PathStringIterator, Path, FilePath. Directory:
--                  DirectoryPath, with Create, the listings and Walk. Locate: the Locate functions. Access:
--                  what they ask of the system, with the temporary file.
--   Rotation       rotation.cxx, rotation.h: Angle, Quaternion and Matrix.
--   StateMachine   statemachine.cxx, statemachine.h: State::Machine, with a log of what it frees.
--   Time           time.cxx, time.h: Clock and Timer.
--   Endian         endian.h: the template for integers, signed or not.
--   Annals         annals.cxx, annals.h: AnnalsBase over the FileOutput and StandardStream of InputOutput.
--   Arrangement    arrangement.h: ManyToOneMapper, with its assertions, and Set.
--   Lifetime       lifetime.h, Sink: the namespace Sink, items, wrappers and their manager. Cleaner:
--                  the class Cleaner, with a log of what it frees. Anchor: the class Anchor. Deleter:
--                  the deleter containers, which meet the interface of Deleter/Contract.
--   Factory        factory.h: Factory, Product and ActiveFactory, with a log of what is freed.
--   Entanglement   entanglement.h: Entanglement, in a store of who points to whom, without the
--                  second constructor, which does not compile.
--   Insert         insert.h: Insert and Slot, in a store.
--   Singleton      singleton.h: Singleton.
--   Collection     collection.h: the iterables.
--   Interzord      interzord.h: Interzord and the interpolaters, with a log of what is freed.
--   Vector         vector.cxx, vector.h: Vector, and FlatVector in Vector/Flat.
--   Region         region.cxx, region.h: Region.
--   Pool           pool.h: Pool, the goods and their bindings.
--   InputOutput    inputoutput.cxx, inputoutput.h: Format: what the C++ library prints and reads for
--                  numbers, and the tokens. Memory: MemoryStream. Standard: StandardStream and
--                  StandardErrorStream. File: FileOutput over the C library's FILEs, and FileInput.
--                  Floats: the printing of floats and of what is made of them.
--   Club           club.h: Club, ActiveClub, Membership and both kinds of members, with
--                  what a club frees.
--   Color          color.cxx, color.h: Color, and ColorChain in Color/Chain.
--   Range          range.h, range.cxx: Mod, OrderF, Range and Mix. Random: the random values.
-- Base holds what the parts share, and Scalar is the type float: a type with operations and tests
-- that the modules take as a parameter. Laws of it that a theorem relies on are named (Ordered,
-- Turning, Signed, Mirroring) and are hypotheses; Scalar/Exact is an instance of them, the
-- integers.
--
-- The code is the one built without WINDOWS. A String is the list of its bytes. A class is a record
-- of its members and a method is a function from the record to the new one, named after the method
-- in lower case with underscores; objects that the code compares by address are numbers. An
-- assertion is taken to be compiled in, so what fails one is an abort. An unsigned int wraps at 2 ^
-- 32.
--
-- Loops that the source leaves by a test run on fuel. Path::Path runs on two more than the length
-- of the text, one turn for each separator and the last; AnnalsBase::Log on one more than the
-- length of the extra text, one turn for each newline and the last; no text has more of them than
-- bytes. DirectoryPath::Walk takes its fuel as an argument: a tree needs one more than two turns
-- for each directory below it. The loop by which FileInput reads a line runs on 13, since the size
-- doubles from 4096 to 10 MB in 12 turns; FixAngle takes its fuel as an argument, to be above a
-- measure that its steps lower. The loop by which a DeleterDequeue clears itself runs on one more
-- than its length, one turn for each element and the last. A loop over an IndexIterable takes its
-- fuel as an argument, for one turn more than GetCount, and so does RandomSphericalVector, whose
-- turns depend on the generator. All other loops recurse on a list.
--
-- The file system is a parameter of Directory: what readdir and mkdir answer. The environment, the
-- working directory and the temporary directory are parameters of Locate. Memory allocation does
-- not fail. The C library's files and the devices behind the streams are parameters of InputOutput.
-- How the C++ library prints a float is a parameter of InputOutput/Floats, and rand is one of
-- Range/Random. Not modelled are the reading of floats, the specialisation of Endian for Color,
-- accessors that give pointers into an object, what is built for WINDOWS, and string.h and
-- auxinclude.h, which only name types.
pub mod Annals
pub mod Arrangement
pub mod Base
pub mod Club
pub mod Collection
pub mod Color
pub mod Endian
pub mod Entanglement
pub mod Exception
pub mod Factory
pub mod Filesystem
pub mod InputOutput
pub mod Insert
pub mod Interzord
pub mod Lifetime
pub mod Pool
pub mod Range
pub mod Region
pub mod Rotation
pub mod Scalar
pub mod Singleton
pub mod StateMachine
pub mod Time
pub mod Vector
