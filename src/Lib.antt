-- ===== src/Lib.antt =====
-- The C runtime of Ikarus Scheme: the exact integer arithmetic of src/ikarus-numerics.c over the
-- tagged words of src/ikarus-data.h, in the 64-bit layout (wordsize 8, limbs of 64 bits), the
-- symbol tables of src/ikarus-symbol-table.c, the reader of object files of src/ikarus-fasl.c, and
-- the pages and weak pairs of src/ikarus-runtime.c and src/ikarus-weak-pairs.c.
--
-- Base holds what the modules share: Boolean tests, lists with native indices, signed integers
-- (Base.Int, C's `long` and the value of a number) and sums by sign and magnitude (Base.Magnitude).
-- Word has the casts between `long` and `unsigned long`, `fix` and `unfix`. Limbs is the value of a
-- limb array. Mpn is GMP's mpn layer, which is no part of the repository: a record of functions
-- (Mpn) and the laws of its manual (IsMpn), which the operations take as parameters; Mpn.Reference
-- implements it on numbers.
--
-- Bignum has the object: a header word `fst` (tag, sign bit, limb count) and the limbs, and the
-- type Obj of a tagged word or a pointer to a bignum; `verify_bignum` and `normalize_bignum`. A
-- call of exit(-1) is a value of the type Exit. `verify_bignum` is the version that checks
-- (src/ikarus-numerics.c:43-89); configure.ac sets NDEBUG, under which it is its argument (40-41).
-- What the model of a call returns is what it returns in both builds; where the model exits at
-- verify_bignum, the other build returns the object unchecked. Fixnum has ikrt_fxfxplus,
-- ikrt_fxfxminus and ikrt_fxfxmult; FxBn has ikrt_fxbnplus, ikrt_fxbnminus, ikrt_bnfxminus and
-- ikrt_bnnegate; BnBn has ikrt_bnbnplus and ikrt_bnbnminus; Product has ikrt_fxbnmult and
-- ikrt_bnbnmult; Compare has ikrt_bnbncomp; Division has ikrt_bnbndivrem, ikrt_bnfxdivrem and
-- ikrt_bnfx_modulo; Shift has ikrt_fixnum_shift_left, ikrt_bignum_shift_left and
-- ikrt_bignum_shift_right; Lognot has ikrt_bnlognot; BitLength has limb_length, on fuel of one step
-- for each of the 64 bits of a limb, and ikrt_bignum_length; Bitwise has ikrt_fxbnlogand,
-- ikrt_bnbnlogand, ikrt_fxbnlogor and ikrt_bnbnlogor, which work on two's complements of limb
-- arrays: Bitwise.Twos relates limbs to integers bit by bit, and Bits has the bits of words, limbs
-- and integers. Printing has ikrt_bignum_to_bytevector, with GMP's mpn_get_str and the success of
-- malloc as parameters; its Printing.Reference writes the digits by division. Random has
-- ikrt_fxrandom over a sequence of numbers from random(), its loops on fuel: 64 steps are enough
-- for the mask of a fixnum, and the fuel of the other loop is the number of calls of random(). The
-- proofs are in the children of these modules, the concrete runs in Tests, BitTests, PrintingTests
-- and RandomTests.
--
-- A function of the model takes and returns what the C function does, less the process control
-- block: memory is allocated fresh, so no operation changes an object that exists, and a result is
-- described by the limbs that its header counts. Memory that the code can leave unwritten is the
-- parameter `junk`. Equality of pointers is the parameter `same`. The bit fields of a header do not
-- overlap, so `|`, `&` and shifts on them are written as sums, remainders and quotients. The loops
-- over limbs are structural recursions on the limb count. Limb counts are far below the 2 ^ 60 at
-- which a header would overflow. ik_safe_alloc takes its size as an `int`: a shift to the left,
-- whose result can be long for short operands, ends with Exit.size_not_int where the size does not
-- fit, and C cuts it there. The other numbers that result have a size within a limb of that of
-- their operands together.
--
-- Hash is compute_hash on the bits of an `int`; Symbols has the symbol and gensym tables of
-- src/ikarus-symbol-table.c over a store of symbols, which Symbols.Maps reads as two maps from
-- strings to symbols. A read that C leaves undefined and the exit on a dead symbol table are faults
-- there. Concrete calls are in SymbolTests.
--
-- Fasl is the reader of object files. Fasl.Port has the port (the input that is left and the marks)
-- with fasl_read_byte, fasl_read_buf and the marks; Fasl.Relocate has ik_relocate_code;
-- Fasl.Objects and Fasl.Read have do_read, one definition for each type of object; Fasl.Load has
-- ik_fasl_read and ik_fasl_load. A reader passes the port on and ends with a value, with a Stop for
-- each call of exit(-1), for what C leaves undefined and for the run of an object that does not
-- come back, or out of fuel. do_read has fuel for the depth of its calls and ik_fasl_load for its
-- rounds; each call takes a byte at least, so the length of the input is enough for both. The heap
-- is a list of objects, and an address is an index in it. Parameters are the words of addresses,
-- the memory of new symbol tables, dlsym, and what running an object does: it comes back with a
-- store, or it exits or runs on. The gensyms and symbols that are read go into the tables of
-- Symbols. Fasl.Write has the format of data without sharing, independent of the reader. Concrete
-- reads are in FaslTests.
--
-- Pages has the page tables of src/ikarus-runtime.c, the types and dirty marks of the pages from
-- memory_base up to memory_end, and the cache of pages that stay mapped: extend_table_maybe,
-- set_segment_type, ik_munmap_from_segment, ik_mmap_typed and its variants. The tables are lists
-- with an entry for each page, a failed assert is none, and what ik_mmap maps is an argument; that
-- it is fresh memory is the hypothesis Pages.Map.IsFresh. The loop that fills the cache runs over
-- the nodes that are free. Pages.Types has the type of a page, Pages.Valid and Pages.Cache what
-- holds between the calls, Pages.History sequences of calls. Pages.Weak has the weak pairs of
-- src/ikarus-weak-pairs.c. Concrete calls are in PageTests.
--
-- Foreign has, from src/ikarus-pointers.c, the conversions between C's integers and numbers,
-- pointers as numbers, and the reads and writes of integers at a pointer over a memory of bytes,
-- the lowest first. A long long is as wide as a long. Concrete calls are in ForeignTests.
--
-- Not modelled: the garbage collector, which an allocation can run, the allocation of objects in
-- pages, the creation of a process control block, square roots, hashes and conversions to flonums
-- of numbers, the opening and mapping of object files and the placement of code objects in pages,
-- foreign calls and floats at pointers, the system interface, and the Scheme sources.
pub mod Base
pub mod Word
pub mod Limbs
pub mod Mpn
pub mod Bignum
pub mod Fixnum
pub mod FxBn
pub mod BnBn
pub mod Product
pub mod Compare
pub mod Division
pub mod Shift
pub mod Lognot
pub mod BitLength
pub mod Bits
pub mod Bitwise
pub mod Printing
pub mod Pages
pub mod PageTests
pub mod Foreign
pub mod ForeignTests
pub mod Random
pub mod Fasl
pub mod FaslTests
pub mod Hash
pub mod Symbols
mod Tests
mod BitTests
mod PrintingTests
mod RandomTests
mod SymbolTests
