-- ===== src/Lib.antt =====
-- Verification of sqnim (src/sqnim.nim): the Squirrel engine that the library compiles from
-- src/private/squirrel and binds for Nim, and the output hooks that it adds in
-- src/private/util.cpp.
--
-- The parts, with the file of this library and the code that it follows:
--   Hooks         the print and error hooks, shared by all machines, that the engine's `print` and
--                 `error` end in (src/private/util.cpp; base_print and base_error in
--                 squirrel/sqbaselib.cpp; sq_setprintfunc in squirrel/sqapi.cpp)
--   Value         the tagged values (include/squirrel.h, squirrel/sqobject.h); Value.Compare is
--                 ObjCmp, CMP_OP, IsEqual and IsFalse, Value.Arith is ARITH_OP, BW_OP, NEG_OP and
--                 the arithmetic instructions (squirrel/sqvm.cpp)
--   Vector        sqvector, the growable vector that arrays and the compiler use
--                 (squirrel/squtils.h)
--   Array         SQArray, its API and its script functions (squirrel/sqarray.h, sqobject.cpp,
--                 sqapi.cpp, sqbaselib.cpp); Array.Each, Array.Slice and
--                 Array.Sort are what calls script functions, slices and heap sort
--   Blob          SQBlob, a byte buffer with a position (sqstdlib/sqstdblobimpl.h)
--   Stream        numbers and blobs in streams (sqstdlib/sqstdstream.cpp)
--   FuncState     what the compiler knows of the function that it compiles: registers, targets,
--                 captured locals (squirrel/sqfuncstate.cpp, sqfuncstate.h, sqopcodes.h);
--                 FuncState.Peephole is AddInstruction, FuncState.Machine the instructions that it
--                 merges as the interpreter runs them (squirrel/sqvm.cpp), and
--                 FuncState.Literals GetConstant, on a table
--   Table         SQTable, the hash table behind script tables (squirrel/sqtable.h, sqtable.cpp)
--   StringTable   SQStringTable, one object for each text, and its hash (squirrel/sqstate.h,
--                 sqstate.cpp, sqstring.h)
--   Lexer         SQLexer: Lexer.Token is Lex and ReadID, Lexer.Steps comments, strings and their
--                 escapes, Lexer itself number literals and UTF-8 (squirrel/sqlexer.h,
--                 sqlexer.cpp)
--   Strings       prefixes, suffixes, splitting, stripping, escaping (sqstdlib/sqstdstring.cpp)
--   Proto         SQFunctionProto: saving and loading closures, and the lines of instructions
--                 (squirrel/sqfuncproto.h, sqobject.cpp)
--   Rex           regular expressions: Rex.Node and Rex.Compile are the compiler to nodes, Rex.Match
--                 and Rex.Search the matcher (sqstdlib/sqstdrex.cpp)
-- The directories squirrel, sqstdlib and include stand in src/private/squirrel (the first two in
-- its src). Names of functions follow the code, in lower case; a method is a function from the
-- old state to the new one, with an option, a sum of results or a Boolean for what it reports.
--
-- How they fit: an array is a vector of values; the sort compares with ObjCmp unless the script
-- passes a function; the interpreter's arithmetic instructions end in ARITH_OP, whose errors it
-- turns into exceptions, but for those of the modulo; the compiler's registers are what the instructions name, and it numbers
-- literals in a table; streams write to blobs; strings compare by address because the string table
-- has one object for each text; a closure's file holds the functions that the compiler made, with
-- the kinds of values that Value has; a script's regular expressions are compiled once and
-- searched many times.
--
-- Integers of the script are 64-bit words: Word gives the wrap-around, and a result that C++
-- leaves undefined is a fault. Sizes and positions of vectors and blobs are natural numbers, as
-- memory ends before they wrap. Floating point, the C library's vsprintf and strtod, the
-- conversion of a value to text and the calls of metamethods are parameters, and so are a float's
-- bytes, the memory behind the type of each captured variable, the C library's tests of characters,
-- and what the lexer's table of keywords holds. A comparison of the sort answers in a state that it
-- may change; one that fails is the value none. One that changes the array is left out. Keys of
-- tables have a hash and an equality that are parameters. Fuel stands where the code's recursion
-- is not structural: the sort's sift has one more than the length, the walk along a chain the
-- number of nodes, NewSlot and Rehash, which call each other, a depth of three, the loops of the
-- table's constructor and of Clone one more than the size, and loading a function how deep
-- functions stand in it. A match of a regular expression has a depth, bounded by the weight of its
-- nodes, and rounds, 65,537 for a repetition and the rank of a node for a list. The compiler of
-- regular expressions has its depth as fuel, and the lexer more than the characters that are left.
--
-- Not modelled: reference counts and the collector, classes, what a closure captures at run time,
-- the other instructions of the interpreter, the parser, files, and the calls into the C library.
mod Prelude
pub mod Word
pub mod Value
pub mod Vector
pub mod Array
pub mod Blob
pub mod FuncState
pub mod Hooks
pub mod Lexer
pub mod Strings
pub mod Table
pub mod StringTable
pub mod Stream
pub mod Proto
pub mod Rex
mod Tests
