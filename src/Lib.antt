-- ===== src/Lib.antt =====
-- ComboTree: a learned key-value index for persistent memory (C++).
--
-- The program stores pairs of 64-bit keys and values in three levels: a learned index (A level) finds
-- a range of entries of the B level, an entry owns a B+ tree (C level), and the nodes of that tree
-- are buffers of 128 bytes. The development models the buffers from their bytes upwards.
--
--   Bytes     memcpy, memmove and word access on byte-addressed memory
--   Bits      bit operations as arithmetic
--   Word      64-bit shifts, _bzhi_u64, _bextr_u64, circular_lshift and circular_rshift
--             (src/sortbuffer.h); Word/Fields has what the rotations do to a field of a word
--   Slots     the layout of keys and values in a buffer, shared by src/kvbuffer.h and
--             src/sortbuffer.h: key, value, pkey, pvalue, MaxEntries
--   Bisect    the binary search that the sources write out
--   SortBuffer  src/sortbuffer.h: the buffer of a C-level node, ordered by a permutation of slot
--             numbers in its header word. Its view is the sorted sequence of pairs
--   SortedPairs  ascending lists of pairs as finite maps
--   Clevel    src/clevel.h and src/clevel.cc: the B+ tree, with its nodes in a heap by address
--   Bentry    src/bentry.h: the entry of the B level in the default build, NobufBEntry; Bentry/Buffered
--             has BEntry of src/bentry.cc, with a buffer in front of the tree
--   Blevel    src/blevel.h and src/blevel.cc: the ranges, the search for an entry, and the operations
--             on it
--   KvBuffer  src/kvbuffer.h in the default build: the buffer of a B-level entry, unordered. Its view
--             is the sequence of pairs in the order of insertion
--   Status    the enum of include/combotree/combotree.h
--   PmemKv    src/pmemkv.h: the store that holds the first pairs, and its hand-over to the tree in
--             ChangeToComboTree_ of src/combotree.cc as interleaved atomic steps
--   LearnIndex  src/learn_index.h and src/learn_index.cc: the index over the B level, whose trained
--             model is a parameter
--   ComboTree  src/combotree.cc and include/combotree/combotree.h: the five states, and in
--             ComboTree/Operations a pass of each operation, the migration and the expansion, over
--             an interface to the levels below. ComboTree/Errors has what Update returns
--   Sequence  sequences as tabulated functions, with insertion and removal at a position
--   Prelude   names, tests and list functions that all share
--   Examples  concrete inputs
--
-- A buffer is a record with the fields of the source's struct and its bytes; an operation is a
-- function from the buffer before to the buffer after. Numbers are natural numbers, with the
-- width of each bit field and word written out as a remainder. Positions that the source returns as
-- -1 are one more here, as each definition says. The binary search runs on fuel; entries + 1 steps
-- are enough, since each step halves the range, and its theorem says so. The walk down a tree runs on
-- fuel above the height of the tree.
--
-- Indexes of the B level are those for which the source's int arithmetic does not overflow; beyond
-- them a search has no result here. Assertions are taken to be off (NDEBUG), also where they would
-- stop the program; the definitions and theorems that this concerns say so.
--
-- Not modelled: cache-line flushes and fences, which do not change the contents; the BUF_SORT build
-- of src/kvbuffer.h; iterators; PrepareExpansion and ExpandRange_ of src/blevel.cc, of which the step
-- that fills a level is; src/alevel.h, whose table is computed on doubles; the interleaving of
-- threads within a pass of ComboTree; the variants of the levels in other files of src; the vendored
-- indexes. That memory for new nodes is left is taken for granted, as in the release build.
pub mod Prelude
pub mod Sequence
pub mod Bytes
pub mod Bits
pub mod Word
pub mod Slots
pub mod Bisect
pub mod KvBuffer
pub mod Status
pub mod PmemKv
pub mod SortedPairs
pub mod Clevel
pub mod ComboTree
pub mod Bentry
pub mod Blevel
pub mod Examples
pub mod SortBuffer
pub mod LearnIndex
