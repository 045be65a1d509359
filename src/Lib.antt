-- ===== src/Lib.antt =====
-- zb is a build tool: a Lua program describes derivations, a store server realizes them and keeps
-- their results by content. This library models parts of its core.
--
-- Aterm models internal/aterm/aterm.go, the scanner and the printer of the format in which
-- derivations are stored. `Scanner` is the state of the Go type, with the rest of the stream as a
-- list of bytes; `read_token`, `unread_token`, `parse_string` and `append_string` are the functions
-- of these names. `parse_string` is a structural recursion on the stream.
--
-- StorePath models zbstore/path.go, and from zbstore/ca.go and internal/storepath how a store path
-- is computed from a content address. Paths are lists of bytes; StorePath/Posix writes out what is
-- used of Go's package path, while the functions of internal/windowspath, of nixbase32 and of the
-- package nix are fields of the parameters `External` and `Nix`. A path of POSIX style is handled as
-- its elements (StorePath/Elements, StorePath/Clean). StorePath/Paths has `Path` with its methods
-- and `ParsePath`, StorePath/Directory has `Directory`, and StorePath/References has `References`
-- as sorted sets.
--
-- Derivation models zbstore/derivation.go. Derivation.antt has the parsers and printers of lists of
-- strings, of the environment and of the input derivations; Derivation/Outputs has the types of
-- outputs and their names, Derivation/OutputReference the references to outputs and the paths of
-- fixed ones, Derivation/Format has `MarshalText`, Derivation/Tuple has `ParseDerivation`, and
-- Derivation/Export has `Export`, `References` and `OutputPath`. They use the scanner of Aterm, the
-- order of Sets and the paths of StorePath. The loops run on `rounds`, two more than the bytes of
-- the stream: each round takes a token, and a token takes a byte, which Aterm/Consumes,
-- Derivation/Rounds and Derivation/TupleRounds are about.
--
-- Sets models sets/sortedset.go, over an interface for Go's `cmp.Ordered`, and sets/bit.go, where
-- the spare capacity that `slices.Grow` leaves is a parameter. Backend/UserSet models
-- internal/backend/user_set.go on those bit sets, as steps of the goroutines that call `acquire`
-- and `release`; what stands under the mutex is one step.
--
-- Backend/Analyze and Backend/Graph model internal/backend/graph.go: `analyze`, which finds the
-- derivations that the wanted outputs need, and the iterator that hands them out to goroutines
-- with `next` and takes them back with `finish`, as steps on one shared state. The rounds of
-- `analyze` are as many as there are references to put on its stack: a derivation is visited once,
-- and each round takes a reference off (Backend/Analyze/Fuel). Backend/Analyze/Needed is about the
-- two together.
--
-- Backend/MutexMap models internal/backend/mutex_map.go as steps of the goroutines that lock and
-- unlock, and Backend/Planner models internal/backend/realization_planner.go, where what the
-- database answers, and the order in which a loop goes through a clone of a set, are a parameter
-- (`Database`). In Backend/Analyze, of a derivation the inputs are modelled, and the rest of it is
-- handed on to the hash function, which is a parameter.
--
-- RefFinder models internal/detect/ref_finder.go: the tree of the strings to look for, by their
-- UTF-8 and UTF-16 forms (RefFinder/Encode), and the threads that each byte of a stream advances.
--
-- ByteBuffer models bytebuffer/buffer.go, and Deque models internal/deque/deque.go with the
-- capacity that `slices.Grow` gives as a parameter. RangeSpec has the ranges of
-- internal/xhttp/range_header.go with their parser and printer; the functions of Go's packages
-- strings and strconv that these use are written out in RangeSpec/Parse.
--
-- Luacode models internal/luacode/instruction.go, the 32-bit instruction words of the Lua virtual
-- machine with their shifts and masks and the table of opcodes (Luacode/Op, Luacode/OpCode,
-- Luacode/Instruction), and from internal/luacode/lineinfo.go the packing of line numbers and its
-- two readers (Luacode/LineInfo).
--
-- Numbers are naturals, with `% 2 ^ w` where the code converts to w bits; signed integers are those
-- of Prelude/Int. Fallible code returns an Option or a Result; a panic is `none`, as each file
-- says. Not modelled: the hashing of archives and derivations, the iterator of a part of the graph,
-- the realizer, the Lua machine and its compiler, the HTTP cache, JSON-RPC, and the code that is
-- input and output alone.
pub mod Prelude
pub mod RangeSpec
pub mod Luacode
pub mod Aterm
pub mod Sets
pub mod StorePath
pub mod Backend
pub mod ByteBuffer
pub mod Deque
pub mod Derivation
pub mod RefFinder
