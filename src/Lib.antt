-- ===== src/Lib.antt =====
-- Universal Symbols, a library that turns the debug symbols of a program into one format (`USYM`) and
-- writes it to a file, as a model with proofs.
--
-- The program. A processor reads a file of some format and builds a `USYM`: the DIA processor a PDB
-- through Microsoft's debug interface, the ELF processor an ELF file through the buffers of RECore.
-- PdbToUni is the program that does all of this for a PDB; DwarfToUni reads an ELF file and writes
-- nothing.
-- A `USYM` holds a header, type symbols and function symbols by their identities. `Serialize` merges
-- duplicate types (`PurgeDuplicateTypes`), checks the references (`VerifyTypeIds`) and lets a serializer
-- (`ISerializer`: binary or JSON) write the result, the binary one through RECore's writer.
--
-- The files, and the code that each models (paths from the root of the repository):
--   Prelude        what the modules share: Boolean tests on native numbers, lists, texts as lists of
--                  codes, `std::unordered_map` as a list of entries (Prelude/Map), `std::to_string`
--                  (Prelude/Decimal).
--   ReCore         Libraries/RECore: the memory behind a buffer (ReCore/Memory), Buffer.h and
--                  Buffer.cpp (ReCore/Buffer), Writer.h and Writer.cpp (ReCore/Writer), Reader.h and
--                  Reader.cpp (ReCore/Reader), RETree.h (ReCore/Tree), REList.h (ReCore/Linked),
--                  REArray.h (ReCore/Array, its sort in ReCore/Array/Sort), StringConverter.cpp
--                  (ReCore/StringConverter), win32/Processes_win32.cpp (ReCore/Processes) and
--                  win32/FileHandling_win32.cpp (ReCore/Dialogue), with what both share in
--                  ReCore/Windows. ReCore/Linked/Chain, Owned: the nodes that a list owns.
--   Usym           Components/UniversalSymbolsFormat/USYM.h and USYM.cpp: the data (Usym), `operator==`
--                  (Usym/Equality), `std::hash` of symbols (Usym/Hashing), `PurgeDuplicateTypes`
--                  (Usym/Purge), `VerifyTypeIds` (Usym/Verify), the lookups by name (Usym/ByName).
--   Serializers    Components/UniversalSymbolsFormat/Serializers: the interface and its template method
--                  (Serializers), the numbers of the enumerations (Serializers/Codes), the binary and the
--                  JSON serializer (Serializers/Binary, Serializers/Json), and nlohmann::json as a record
--                  of operations with laws (Serializers/Library). Serializers/Json/Shows and Contents say
--                  what a JSON value shows, Printing, Maps and Names when it prints. Serializers/Binary/Format is the format
--                  on its own, Serializers/Binary/Decode a reader for it.
--   Serialize      `SetSerializer` and `Serialize` of USYM.cpp, over a disk; Serialize/Lifecycle has
--                  their calls in any order as a step relation.
--   Elf            Components/ElfProcessor: the structures of ELF.h (Elf), their bytes (Elf/Layout) and
--                  `ElfEx` of ElfInterface.cpp (Elf/Parse).
--   Dia            Components/DiaProcessor/DiaInterface.cpp over the debug interface: names and unions
--                  (Dia/Names), runs that may fail (Dia/Run), one symbol (Dia/Create), the lists and the
--                  whole (Dia/Build), the pointers of the session (Dia/Lifetime).
--                  Dia/Documented says what the interface documents.
--   PdbToUni       PdbToUni/main.cpp: from the arguments to the JSON file.
--   DwarfToUni     DwarfToUni/main.cpp: an ELF file on a fixed path.
--   Tests          concrete runs, and the theorems at concrete inputs.
-- A function has the name of the source's function in lower case with underscores.
--
-- State. An object that is changed is a record that a function takes and returns. An access outside
-- a block, a read through a null pointer and an index outside a vector are results of their own
-- (`none`, `null_access` in Dia/Run, `fault` in ReCore/Linked, `invalid` in ReCore/Windows);
-- exceptions end a run (`thrown` in Serializers, Serialize, Dia/Run and ReCore/Windows). Numbers have no bound; where the source's width matters (`size_t` in
-- `IsOverflow`, ELF offsets, signs of offsets, the counters) the wrap-around is written out, and the
-- theorems on bytes ask for values that fit their width.
--
-- Parameters: the order in which an unordered map is walked is the order of the list, and the theorems
-- hold for every order. The standard hashes of numbers and texts are arbitrary functions
-- (`Usym/Hashing.Hasher`). The growth factor of the writer, in doubles, is a function that does not
-- more than double. Files and the disk are values. JSON values and their printing are what the record in
-- Serializers/Library allows: printing throws where a text is not UTF-8, which that file defines. The debug interface is the record `Dia`. The Windows API is the records
-- `Windows` and `Shell` of what its functions return, and the storage policy of `std::vector` and
-- `std::wstring` a part of the second.
--
-- Fuel. Only `CreateTypeSymbol` recurses without a bound in its text. `create_type_symbol` takes a
-- number that goes down with each call of itself; `Dia/Termination` shows that it never runs out where
-- it exceeds the number of symbols without an entry times the longest chain of typedefs. The sort of
-- ReCore/Array takes the number of the elements, and its loop that goes up ends at the end of the block.
-- The loops over the nodes of ReCore/Linked take one step more than there are nodes, and have an outcome of
-- their own where that is not enough. All other loops are recursion on their list or count.
--
-- Not modelled: running out of memory; the references to debug symbols that the processor keeps in raw
-- pointers and never releases; logging, and asserts, which release builds leave out; the conversion of
-- the path that `InitializeDia` hands to the debug interface; constants of ELF.h that no code uses;
-- tests; vendored libraries.
pub mod Prelude
pub mod ReCore
pub mod Usym
pub mod Serializers
pub mod Serialize
pub mod Elf
pub mod Dia
pub mod PdbToUni
pub mod DwarfToUni
mod Tests
