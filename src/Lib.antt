-- ===== src/Lib.antt =====
-- The hwarangdo compiler and its runtime.
--
-- hwarangdo is a language for games. Its compiler reads a source text, builds symbol tables, types
-- every expression, and translates by way of two intermediate representations to LLVM; a program is
-- linked with a runtime that owns the entities of the game. These files model the parts below.
--
-- World          runtime/world/hrd_runtime_world.cpp, include/runtimes/hrd_runtime.h. A Runtime holds
--   the global `world` and what was freed. The functions keep their names without `hrd_`; `abort` is
--   the outcome `panic`, and what the code does not check is the outcome `undefined`. The code behind
--   the function pointers is the parameter `call`, which the theorems assume to act on the runtime by
--   spawns, requests for destruction and quits. The loop of the flush runs on fuel.
--   World/Handles: the parts of a handle. World/Slots: the invariant. World/Calls: sequences of
--   calls. World/Lookup: what handles view. World/Release, World/Flush, World/Stale,
--   World/Terminates: the flush.
-- Types          include/hrd/BuiltInType.h, include/hrd/SemanticAnalyzer/symbol/TypeSymbol.h, the
--   tests of include/hrd/SemanticAnalyzer/SymbolTable.h. A type symbol is known by its address.
--   Types/Convert: implicit conversion, Types/Operators: binary expressions, both of
--   src/SemanticAnalyzer/Resolver/ResolverUtil.cpp. Types/Enumerate: all builtin types, in a table.
-- Text           src/SemanticAnalyzer/Resolver/ResolveChar.cpp. The UTF-8 decoder, on
--   lists of bytes; Text/Encode is UTF-8 as its definition has it, and not part of the
--   program.
--   Text/Literal: character and string literals, on their text as the lexer hands it on.
-- Lexer          src/lexer/lexer.cpp, include/hrd/Lexer.h, include/hrd/Token.h. The state is the
--   list of the bytes that are left, the line and the column. The loops over comments take one
--   round more than there are bytes left; one that has not ended by then never ends: the outcome
--   `runs_on`. Lexer/Cursor: get, peek and the loops. Lexer/Keywords: the map of words.
--   Lexer/Scan: scan, split by the first byte, and lexing, on fuel. Lexer/Comments,
--   Lexer/CommentEnds: the loops over comments. Lexer/Progress, Lexer/Spelling, Lexer/Tokens,
--   Lexer/Ends, Lexer/Located: what is read.
-- Numerals       src/util/Helper.cpp, integer literals. Numerals/Values: the number a text writes.
-- Overload       resolveOverload of src/SemanticAnalyzer/Resolver/ResolveCall.cpp, on any type of
--   symbols. Overload/Ranks: the order of the candidates. Overload/Viable: who they are.
--   Overload/Best: the one that is chosen.
-- Mir            src/IR/MIR, include/hrd/IR/MIR, include/hrd/IR/IRScope.h: the translation of method
--   bodies to blocks. Mir/Hir: its input, of include/hrd/IR/HIR. Mir/State: the builder, whose
--   steps go on, end in an internal error or are undefined. A pointer to a scope is the number of
--   scopes from it outwards. Mir/Branches, Mir/Lower: the handlers, each on the actions that
--   lower its parts; recursion is on the input, so that no fuel is needed. Mir/Fit: the bodies
--   that the theorem on closed functions takes. Mir/Wf, Mir/Rules, Mir/Scopes, Mir/Contexts: what
--   the steps keep. Mir/Steps, Mir/Handlers, Mir/Cases, Mir/Safe: what the handlers keep.
--   Mir/Straight, Mir/Closed, Mir/Cleanup, Mir/Pointers: expressions without branches, whole methods,
--   the cleanup of scopes, and the same cleanup on pointers.
-- Strings        runtime/string/hrd_runtime_string.cpp, on a memory of strings and allocations.
--   Strings/Valid: who owns what. Strings/Contents, Strings/Operations, Strings/Compare,
--   Strings/Destroy: the bytes that strings hold.
-- Inherit        verifyCycledInherit and the loop over the classes in verify, of
--   src/SemanticAnalyzer/Verifier.cpp. The recursion is on fuel, one more than the number of classes.
--   Inherit/Marks: what the marks on the classes say. Inherit/Chains: what the verdict says.
-- Prelude        what the other modules share.
--
-- The types of an entity's memory and what its destructors do to it are not modelled, nor is the
-- output to stderr. Indices of slots and generations are `uint32_t` and wrap; sizes of vectors are
-- not bounded. The parser, the scopes of the symbol table, the resolution of names, the building of the
-- HIR and the generation of LLVM code are not modelled.
pub mod Inherit
pub mod Lexer
pub mod Mir
pub mod Numerals
pub mod Overload
pub mod Prelude
pub mod Strings
pub mod Text
pub mod Types
pub mod World
