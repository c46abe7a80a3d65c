-- ===== src/Lib.antt =====
-- The core of Lua 5.1.4: the lexer, instructions and lists of jumps, precompiled chunks, the checker
-- that guards the virtual machine from chunks that are not the compiler's, tables and their library,
-- interned strings and their order, upvalues, references of a host, and pattern matching.
--
-- A compiled function is a `Proto`: code words, constants, nested functions and debug information.
-- `luaU_dump` writes it as a chunk through a callback of the host; `luaU_undump` reads a chunk from a
-- buffered stream, and passes every function that it reads to `luaG_checkcode`, which executes the
-- code symbolically. The virtual machine runs an accepted function without checks of its own.
--
-- Opcodes, Opcodes/Modes: lua-5.1.4/src/lopcodes.h and lopcodes.c. A word is a number below 2^32; the
--   macros are the functions of their names (GETARG_A is getarg_a), the table luaP_opmodes is
--   `opmodes`. Opcodes/Fields has the laws of the fields.
-- Proto: the types of lua-5.1.4/src/lobject.h. A string is its bytes, NULL is `none`, a number is the
--   8 bytes of a double as a natural number. The sizes of arrays are the lengths of lists.
-- Stream: lua-5.1.4/src/lzio.c. The reader of the host is the list of the buffers that it will
--   answer with. Stream/Read forgets the buffers: what is left to be read is one list of bytes.
-- Checker: the symbolic execution of lua-5.1.4/src/ldebug.c. Checks has the single checks, Switch one
--   round of the loop, Run the loop. A read outside of an array is the outcome `fault`, apart from
--   `reject`, so that bounds are not assumed. Starts tells instructions from the counts behind a
--   SETLIST, Spec says when an instruction is safe and what has to follow it. Operands, Skips, Uses and
--   Safety lead from the checks of one round to that, Reach from there to every instruction.
-- Chunk: lua-5.1.4/src/ldump.c (Header, Dump) and lundump.c (Load). The writer is any function on its
--   own data. The loader is a monad over the stream with the errors that `error` throws. Format is the
--   layout of a chunk as a list of blocks; Rules and RoundTrip read a layout back; Whole and Reject
--   have the results for whole chunks.
-- Table: lua-5.1.4/src/ltable.c. Nodes are a function of the index, pointers to nodes are indices, and
--   a `Place` is what the search functions return. Comparison and conversion of doubles are the
--   host's (`Host`), with what is relied on in Table/Keys and Lookup. Chains has the invariant of the
--   chains, Insert and Move keep it in the cases of `newkey`, Free counts the nodes with no key,
--   Contents says what the hash part holds, NewKey and Assign relate the operations to it. Length and
--   Border have `luaH_getn`, Traversal and Visits `luaH_next`, as `next_entry`. `newkey` answers `none`
--   where the code calls `rehash`; `newkey_at` goes on there.
--   Counting (with Sizes for `computesizes`) has the counts of `rehash`, and Growth the functions that
--   call one another: luaH_set, luaH_setnum, luaH_setstr, luaH_resizearray and luaH_new are set_key,
--   set_num, set_str, resizearray and new_table. Lookup brings the searches of `luaH_get` together,
--   Store and Enter say what an assignment changes where there is room. Values, Refill, Start, Nodes
--   and Slice are about the loops of `resize`, Fresh about `setnodevector`, Resize about the whole;
--   Powers, Tallies and Slots are about the counts, Rehash about the sizes, Assignment about `luaH_set`,
--   History about many of them.
-- Sorting: `table.sort` of lua-5.1.4/src/ltablib.c. The table is a function of the index, the
--   comparison a parameter without effects. Swaps has tables that differ by exchanges, Partition the
--   loop around the pivot, Median the first comparisons, Sorted the whole of `auxsort`.
-- Sequence: `table.insert` and `table.remove` of lua-5.1.4/src/ltablib.c, on keys of type int; Moves
--   says what is where after them.
-- Ordering: `l_strcmp` of lua-5.1.4/src/lvm.c, by which `table.sort` compares strings. `strcoll` of
--   the C library is a parameter; Lexical has the order of bytes.
-- References: `luaL_ref` and `luaL_unref` of lua-5.1.4/src/lauxlib.c, with the list of free references
--   in the table; Free has what stays true of it.
-- FloatByte, Logarithm, ChunkId: the bytes for table sizes, the logarithm of sizes, and the name of a
--   source in messages (`luaO_chunkid`), of lua-5.1.4/src/lobject.c.
-- Pattern: the matcher of lua-5.1.4/src/lstrlib.c. A pointer into the subject is a position, one into
--   the pattern what is left of it. Classes has the items and sets, Captures the captures, newest
--   first, Match the matcher; errors are values, and the character tests of the C library a
--   parameter (`Ctype`). Meaning says what a pattern matches with no order of search in it; Lengths,
--   Undo, Expand and Suffix lead to Decide, which relates the two; Bounds keeps a match in the subject.
-- Strings: functions of lua-5.1.4/src/lstrlib.c on top: Positions (sub), Plain (the search without
--   patterns), Results (captures as values), Search (find, match, gmatch), Substitute (gsub). The
--   function or table that gsub is given is a parameter without effects. First is about searches, Pieces
--   is an induction over the rounds of gsub, Rewrite uses it.
--   Format is the option %q of string.format (`addquoted`).
-- Lexer: lua-5.1.4/src/llex.c. A `LexState` has the characters that are left as one list, which begins
--   with `current`; the buffer, the tokens and the line are as in the source. An error is a value with
--   the message, the token it is near of, and the state. Numerals (with `luaO_str2d` of
--   lua-5.1.4/src/lobject.c), Literals and Tokens are the parts of `llex`; luaX_next, luaX_lookahead and
--   luaX_setinput are next_token, look_ahead and setinput. strtod, strtoul, the locale and the tests of
--   characters are parameters (`Clib`). Loops is about loops that pass input, Advance, Progress and
--   Finish about how much each part passes, Quoted, Words, Remarks and Blanks about
--   what is read.
-- Upvalues: the open upvalues of lua-5.1.4/src/lfunc.c. An upvalue is its address, the chain of a
--   thread a list; what `isdead` says is a field, and a new address is an argument. Order and Sharing
--   have the order of the chain and what closures see through an upvalue.
-- Jumps: lists of jumps of lua-5.1.4/src/lcode.c. The code is a function of the position, NO_JUMP is
--   `none`. Lists says which jumps a list has, Concat appends, Control and Patch send a list to its
--   targets, Emit has the functions on a `FuncState`, Pending the jumps that wait for the next
--   instruction and the merging of LOADNIL.
--   The names are the source's less the prefix `luaK_`, with emit, emit_abc, emit_return, emit_jump and
--   emit_nil for luaK_code, luaK_codeABC, luaK_ret, luaK_jump and luaK_nil.
-- Interning: the table of strings of lua-5.1.4/src/lstring.c. luaS_newlstr is `intern`; a new address is
--   an argument. Resize and Unique show that equal strings are one object.
-- Tests: concrete runs.
--
-- Bounds. Each round of a loop of the lexer passes a byte of the input or is the last, so one round
-- more than there are bytes is enough; the loops of `auxsort` move an index in each round, and its
-- parts are shorter than the whole; a traversal has a round for each place of the table; a round of
-- `l_strcmp` passes a byte of the first string. `luaZ_read` of n bytes copies a byte at least in each
-- round, so n rounds are enough. The loop of `symbexec` moves its counter up in each round, so
-- `lastpc` rounds are enough. The loader's recursion is on the room that is left below LUAI_MAXCCALLS,
-- and runs out where the code throws "code too deep". A chain of nodes has at most as many links as
-- nodes that were taken, so a search of sizenode + 1 steps is enough. `newkey_at` is given the depth
-- of its calls of itself: a table that has grown has room for each of its entries and the new key, so
-- a depth of two is enough. `unbound_search` doubles 32 times at most before it leaves the range of
-- int; the rounds of its linear search are a parameter. Every call of `match` has a shorter pattern,
-- so one round more than its length is enough; a round of `gsub` moves on by a byte or is
-- the last. Distinct jumps are no more than the instructions before `pc` (Jumps/Count), which is the
-- fuel of the loops over a list of jumps. The loop of `luaO_int2fb` halves a number below 2^32, so 32
-- rounds are enough, and that of `luaO_log2` divides it by 256, at most 3 times. Signed arithmetic in
-- the checker stays far below 2^31 and is not reduced.
--
-- The host is the usual one: little-endian, int of 4 bytes, size_t and lua_Number of 8.
--
-- Not modelled: allocation and its failure, the anchoring of new objects on the stack, the text of an
-- error message, the collector's dead keys, the flags of absent metamethods, order functions with
-- effects, and the rest of the interpreter (parser, expressions of the code generator, collector,
-- execution of instructions, the other libraries).
pub mod Prelude
pub mod Opcodes
pub mod Proto
pub mod Sorting
pub mod Sequence
pub mod References
pub mod Ordering
pub mod ChunkId
pub mod Stream
pub mod Checker
pub mod Chunk
pub mod Table
pub mod FloatByte
pub mod Logarithm
pub mod Pattern
pub mod Strings
pub mod Upvalues
pub mod Jumps
pub mod Lexer
pub mod Interning
mod Tests
