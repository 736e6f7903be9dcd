-- ===== src/Lib.antt =====
-- Models of the C and C++ programs of the Elastic Translations artifact, and what is proved of
--   them.
--
-- The artifact measures how translation sizes change the misses of a TLB. Its own programs are
-- the simulation of a promotion candidate cache (src/pcc) and the benchmarks that load the TLB
-- (src/benchmarks). Modelled here are the whole simulation and parts of the B+ tree and gups
-- benchmarks:
--
-- * src/pcc/tlb.h, class CacheSet: Pcc/CacheSet.antt and its children. `CacheSet` is the record
--   of the members, with one function for each field of CacheLine as the heap of lines; the
--   sentinels are the addresses `head` and `tail`, NULL is `null`, the entries follow. An
--   operation gives the new set, or `none` for a failed assertion, a null dereference or a loop
--   that does not end. Defs.antt has the operations (access, insert, evict, get_freq, decay_freqs,
--   flush, get_set, print, insertFront, insertHalf, insertLFU, deleteNode); the other files reason
--   about the doubly linked list (Links, Insertion, Relink), the invariant (Valid, Order, Room),
--   the operations on a valid set (Access, Insert, Evict), the LFU order (Lfu, Held, Promotion)
--   and runs of requests (Run). Tags, Lru, Lookups and Inclusion compare a set under LRU with a
--   list of tags.
-- * src/pcc/tlb.h, class FunctionalCache: Pcc/Cache.antt. Defs.antt has the operations,
--   Fields.antt reads `extract` as arithmetic, Ready.antt treats a cache of any number of sets,
--   Single.antt one of a single set, as the promotion cache is.
-- * src/pcc/huge_page_reuse.h, the tracker of reuse: Pcc/Reuse.antt. `Tracker` (State.antt) has
--   the globals: the three TLBs, the promotion cache, the output variables of the TLBs (`Slot`)
--   and the two maps. Defs.antt has promotion_cache_init, summarize_promotions with its loop,
--   pcc_track_access cut into the count, the TLB hierarchy, the promotion cache and the
--   TRACK_REUSE part, and summarize_reuse. The caches are used through the operations of
--   Pcc/Cache. Steps.antt and Judge.antt treat promotion and demotion, Summary.antt the summary,
--   Lookup.antt the TLBs, Track.antt the rest of an access, Run.antt a whole one, Print.antt the
--   final summary, Init.antt the initial caches.
-- * src/pcc/hawkeye.h, the tracker of coverage: Pcc/Hawkeye.antt. `Hawkeye` has the globals; the
--   ten buckets are a function from their indices. Defs.antt has all functions, Buckets.antt
--   treats change_bucket, Promote.antt and Bound.antt the promotion loop, Rebucket.antt the loop
--   over the coverage, Summary.antt `summarize`, Phases.antt, Faults.antt and Sound.antt
--   hawkeye_track_access.
-- * src/pcc/main.cpp, the program: Pcc/Main.antt. Defs.antt has the run over a trace in both
--   modes, with the final summarize_reuse where the pointers to the caches may be null. Run.antt
--   treats them as a whole, Phases.antt the phases of the second, Sound.antt where the second
--   ends.
-- * src/benchmarks/btree/btree1.c, the B+ tree: Btree/Node.antt. `Node` is the struct with its
--   two arrays as functions; Defs.antt has what the functions of the tree do to one node (the
--   search in `find` and `find_leaf`, insert_into_leaf, insert_into_node, and the two splits,
--   whose temporary arrays and new nodes are arguments, since the allocator fills them). Scan.antt
--   describes the loops, Lookup.antt the search, Insert.antt, Split.antt and SplitNode.antt the
--   insertions. Deletion.antt has remove_entry_from_node and the branches of coalesce_nodes and
--   redistribute_nodes on a node and its neighbor; Remove.antt, Joined.antt, Merge.antt and
--   Redistribute.antt treat them on leaves. The order of the tree is a parameter.
-- * The same file, the tree: Btree/Tree.antt. `Heap` has the nodes and the words of the records
--   by address and the two free lists. Defs.antt has the search (find_leaf, find, height),
--   Insertion.antt the allocators and insertion (make_node, start_new_tree, insert_into_new_root,
--   insert_into_parent with insert_into_node_after_splitting, insert_into_leaf_after_splitting,
--   insert), Deletion.antt deletion (get_neighbor_index, adjust_root, coalesce_nodes,
--   redistribute_nodes, delete_entry, delete), Find.antt the shape of a search tree, Free.antt the
--   free list of nodes, Update.antt and Delete.antt cases of insertion and deletion. Frame.antt
--   and Searches.antt say what a change of one leaf does to a search tree; Room.antt inserts into
--   a leaf with room, NewRoot.antt, Grow.antt, TwoLeaves.antt and Level.antt into a full leaf that
--   is the root; Enough.antt deletes from one that stays full enough. Range.antt has find_range,
--   and InRange.antt what it returns. The slabs of `allocate` and the contents of new arrays are
--   parameters. The loops down and up the tree take fuel, one unit for each level.
-- * src/benchmarks/btree/btree1.c, the random generator: Btree/Random.antt.
-- * src/benchmarks/gups/gups.c, the random numbers of the updates: Gups.antt. A 64-bit word is
--   the function from a place to its bit. Defs.antt has HPCC_starts and the update, Linear.antt
--   and Jump.antt compare them.
--
-- Loops over the list of lines take `associativity` + 1 rounds of fuel: a valid set has at most
-- `associativity` lines in its list, so the fuel is enough, and the theorems that give a result
-- show it. The numbers are natural numbers; the 16-bit counter of a line and the 64-bit words of
-- `extract` have their wrap-around written out. A shift by 64, which C leaves undefined, is the
-- machines' shift by the count modulo 64. The C library's `log2` is a parameter, and so are the
-- type `double` with its operations (Pcc/Doubles.antt, no law is assumed) and the order in which
-- the standard library goes through the map `coverage` (IsOrder in Pcc/Hawkeye/Faults.antt). The
-- promotion loop of hawkeye.h takes one unit of fuel more than there are regions in the buckets,
-- and visits each place of them at most once.
--
-- Not modelled: the hashjoin benchmark, the table of the gups benchmark, and the destruction of
-- the B+ tree. Also left out, because they are input and output, or another project's code: the
-- printing, but for what is printed of the promotion cache and of the reuse records, the reading
-- of the trace, the destructors, the vendored libraries (liblinear, the GAP suite, MurmurHash3),
-- the shell and Python scripts, and the performance counters (tcrperf.h), which are system
-- calls.
pub mod Prelude
pub mod Pcc
pub mod Btree
pub mod Gups
