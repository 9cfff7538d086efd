-- ===== src/Lib.antt =====
-- Diagonal: a C library of generic algorithms and data structures, with the programs built on it.
-- This library models its decoder of VCDIFF (RFC 3284) deltas with what the decoder stands on, and
-- its red-black trees, quick select, deques, sets, vectors, and its Hamming and Levenshtein distances.
--
-- - src/vcdiff.c, src/diagonal/vcdiff.h: Vcdiff.antt holds the structs. Vcdiff/Integer models
--   `integer_read` (from a port) and `read_integer` (from a section), Vcdiff/Read models
--   `diag_vcdiff_read`, Vcdiff/Cache the functions `cache_*`, Vcdiff/CodeTable the default code
--   table and its transfer form, Vcdiff/Vm the machine, its section readers and `vm_addr_decode`,
--   Vcdiff/Vm/Address the encoder `addr_encode`, Vcdiff/Vm/Instruction `vm_decode`, and
--   Vcdiff/Vm/Decode `diag_vcdiff_decode` and `code_table_decode`. Vcdiff/Expand models
--   `diag_vcdiff_expand`, which expands scripts of instructions, and Vcdiff/Contract
--   `diag_vcdiff_contract`, which makes them, with the red-black trees and a rolling hash.
-- - src/port.c, src/diagonal/port.h: Port.antt holds the interface of an input port and its laws,
--   Port/Memory the ports over a block of memory, and Port/Input the chains of reads. Port/Counted
--   is the interface of a port that counts the bytes it delivers (`i_pos`), which the clients that
--   read blocks take; Port/Transfer has diag_port_copy and diag_port_diff.
-- - src/pair.c, src/list.c: Pairs.antt has the heap of pairs and the loops along a list, Pairs/Lists
--   the sequence that a list stands for, and Pairs/ToVector the vector made from a list.
-- - src/cluster.c, src/code.c, src/diagonal/cluster.h: Cluster.antt has the deltas of two strings,
--   Cluster/Applied what they do to a string, Cluster/Counts their number against the Hamming
--   distance, and Cluster/Analysis the encoding and decoding of the data of an analysis.
-- - src/line.c, src/diagonal/line.h: Line.antt has the context with its buffer and the loop of
--   diag_line_read, Line/Scan the lines of a text and the scan for a newline, Line/Outcome what a
--   read comes to, and Line/Reads the refinement.
-- - src/hash.c, src/diagonal/hash.h: Hash.antt.
-- - src/hamming.c: Metric/Hamming.antt, with `diag_hamming_chars` and `diag_ehamming_chars`.
-- - src/levenshtein.c: Metric/Levenshtein.antt, with `diag_levenshtein_chars` and
--   `diag_elevenshtein_chars`. Its child Scripts says what an edit is.
-- - src/vector.c, src/diagonal/vector.h: Vector.antt, with the functions `diag_vector_*`.
-- - src/rbtree.c, src/diagonal/rbtree.h: RbTree.antt holds the nodes, the macros on colours and the
--   rotations, RbTree/Insert `insert1` to `insert5` and `diag_rbtree_insert`, RbTree/Delete `delete1`
--   to `delete6` and `diag_rbtree_delete`, RbTree/Search `diag_rbtree_search`, and RbTree/Walk the
--   minimum, the maximum, the neighbours of a node and `diag_rbtree_for_each`.
-- - src/qselect.c: Qselect.antt, with `diag_qselect`.
-- - src/set.c, src/diagonal/set.h: Set.antt, with the functions `diag_set_*`; `bsearch` and `qsort`
--   are parameters, and `IsLibrary` in Set/Occurs says what the C library promises of them.
-- - src/deque.c, src/diagonal/deque.h: Deque.antt, with the functions `diag_deque_*`. Its two macros
--   are functions of the end they work at.
--
-- A stream is parsed from a port (`diag_vcdiff_read` calls `read_byte` and `read_bytes` of the port),
-- and the parsed stream is then run by the machine against a source (`diag_vcdiff_decode`). The
-- parser is over any `Reader` that satisfies `IsReader`; a memory port is one.
--
-- State is passed explicitly: a port or a machine goes in and comes out. A `uint32_t` or a `size_t`
-- is a natural number, with the wrap-around of each sum and product written out, but for distances
-- of strings, which are at most the greater length. An `intptr_t` that may be negative is a ℤ of
-- Base/Int, and `htonl` is a parameter. A pair of pointers into a section is the list between them. Buffers are lists, and an access outside one is the
-- value `fault`, or `none`, where the C behaviour is undefined. The jump out of `vm->error` is the
-- value `err`. Allocation succeeds, and freed memory is not a part of the state.
--
-- A node of a red-black tree is handled by its place, the subtree below it and the steps up to the
-- root; parent pointers are those steps. The comparison is a parameter, which orders the keys by a
-- rank, and a failed assertion is `none`.
--
-- The elements of deques are in a heap, a list whose indices are the addresses, so that what an
-- operation on one deque does to the others can be said.
--
-- Loops over a port take fuel. A round of such a loop reads one byte at least, so fuel above the
-- number of bytes in the port is enough. The loop over the instructions of a window takes the length
-- of the section. The loop of a RUN takes 256 rounds, which are enough for the sizes below 256.
-- `delete1` takes one more than the length of the path to the root, the iteration over a red-black
-- tree the number of its entries, and quick select the length of the array.
-- The search of the contraction takes one more than the size of the data, since its index grows.
-- `diag_vcdiff_decode` takes the depth to which code tables are nested.
--
-- Not modelled: ports over files, mapped memory and the programs, which are I/O and the parsing of
-- options; hash tables, whose operations are placeholders; byte vectors, tries, the longest common
-- subsequence, single linkage, and data sets; destructors that only free.
pub mod Base
pub mod Port
pub mod Hash
pub mod Metric
pub mod Vector
pub mod Vcdiff
pub mod Cluster
pub mod Deque
pub mod Line
pub mod Pairs
pub mod Qselect
pub mod RbTree
pub mod Set
