-- ===== src/Lib.antt =====
-- ssr, "super simple runtime": concurrent containers and the runtime below them.
--
-- Parts and files:
-- * src/common/carray.h, the counted array: Carray.
-- * src/fifo/cfifo.c, the bounded ring queue: Fifo. A call is cut into its accesses of shared
--   memory; `Fifo.Pc` is the point of control of a thread with its live locals, and `Fifo.exec`
--   makes the next access. Fifo/System interleaves any number of threads, Fifo/Invariant holds the
--   invariant for one consumer, Fifo/Order, Fifo/Progress, Fifo/Solo and Fifo/Races prove what the
--   names say, and Fifo/Schedule and Fifo/Examples evaluate runs.
-- * src/lifo/clifo.c, the bounded stack with a lock in each cell: Lifo, in the same layout.
-- * src/map/list.c, the Harris-Michael list: LinkedList has the heap of nodes and `find_pred`,
--   LinkedList/Ops the operations and LinkedList/Iter the iterator. LinkedList/Shape says which
--   nodes hang from a node, Sweep, Walk and Place follow `find_pred` over them, Splice and Change
--   the writes, and Refine, Reads and Iter compare each operation with Map/Spec, the ordered
--   association list. LinkedList/Order, Finite and Implements are about integer keys.
-- * src/map/map.c and map.h, what the maps share: Map has the constants, Map/Interface the record of
--   operations that an implementation fills, the operations over it and the laws it owes, and Map/Laws
--   the ordered association list as a finite map.
-- * src/map/hashtable.c, the hash table after Cliff Click: HashTable has the tables, the probing and
--   what starts a copy, HashTable/Copy the copying, HashTable/Ops get, cas and remove, and
--   HashTable/Iter the iterator. The tables are numbered by the order of their installation.
--   HashTable/View abstracts them to what a lookup finds in each, Install, Change and Grow are about
--   the changes of such a view, and Probe, Chain, Kept and Frame say that the program's writes make
--   them. Store, Pending, Copying, Entry, Moved and CopyEntry follow `hti_copy_entry`; Help, HelpCopy,
--   Release and Advance the help with a copy; Get, Writes, Outcome, CasEntry, Cas and Loop the
--   operations, and Refine and HtCas put them together. HashTable/Bounds is about indices, Buckets about the entries
--   that are compared, and Implements about the laws of Map/Interface.
-- * src/datatype/murmur.h, the hash functions: Murmur, and Murmur/Words on words and byte strings.
-- * src/map/unsafe_skiplist.c, the skip list for one thread: Skiplist has the heap and the search,
--   Skiplist/Ops the operations, and Skiplist/Levels is about the levels of a new item.
-- * src/txn/txn.c, transactions with snapshots: Txn has the transactions, the updates of the keys and
--   the validation, Txn/Ops begins, aborts, commits and sets, Txn/Get reads and collects old updates.
--   Txn/System lets any number of transactions call these one after another. Txn/Invariant holds the
--   invariant, and Steps, Pushed, Validate, Numbered, Commit, Ended, Ending and Safety follow the
--   calls; Collect, Reading and Snapshot are about txn_map_get, Counts about the counts of `active_`.
--   Txn/Isolation, Txn/Conflict and Txn/Collected prove what their names say.
-- * src/datatype/nstring.c, strings with a length: Nstring, and Nstring/Laws about it.
-- * src/runtime/random.c, the generator of random numbers: Random, and Random/Carry about its words.
-- * src/datatype/datatype.h, the operations on keys that are pointers: Datatype.
-- * src/runtime/rcu.c, deferred reclamation: Rcu has the counts, the queues and the rounds of the
--   loops, Rcu/System mixes the rounds of all threads, Rcu/Invariant holds the invariant and
--   Rcu/Queued the blocks in the queues, Rcu/Safety the safety of freeing; Rcu/Ends is about one whole call of `rcu_update`, Rcu/Rounds
--   about what it does to the counts, and Rcu/Ring about the calls of all threads one after another.
-- * Base holds what all of them share: Boolean tests, lists, words, remainders, sums over threads.
--
-- Numbers are natural numbers, with the wrap-around of size_t (2 ^ 64) written out. Atomic accesses
-- are sequentially consistent single steps. `malloc` is a parameter: a function from a number of
-- bytes to NULL or to memory with any contents; `free` has no effect on the model. The list runs as
-- one thread calls it, on a heap that others may have left with marked nodes; each CAS is there with
-- its branch for a lost race, interleavings of calls are not. Its loops take fuel, and as many rounds
-- as there are nodes and three more are enough. Not modelled: printing, freeing, and the build of the
-- list with hazard pointers.
--
-- The hash table, too, runs as one thread calls it, in the build for 64 bits. Each CAS is there with
-- its branch for a lost race, but for two whose race one thread cannot lose and that are steps
-- without it: that of `next` in `hti_start_copy` and that of `ht->hti` in `ht_cas`; its theorems are about integer keys. Its calls take fuel, and as much as the
-- number of tables that are in use and two more is enough, since an operation on one key and the copy
-- of one entry add one table at most; the help with a copy needs as much as there are entries in the
-- first table on top. Not modelled: the statistics `density` and `probe`, assertions, and scales above
-- 32. The iterator and the counts of values are modelled, without theorems.
--
-- In Txn a call is not cut into its accesses: the race of `txn_begin` with a commit and the lost
-- compare-and-set of `txn_map_set` are not there, while the help with the validation of another
-- transaction is. The map is a function, and `active_` a list in order, as one thread sees the skip
-- list of src/map/skiplist.c, whose expectations but the special ones are met by every value; its
-- difference of two keys in an int is not modelled, so read versions stay below 2 ^ 31. A
-- version or value with a tag is a constructor; version numbers stay below 2 ^ 62. A loop over the
-- updates of a key needs more fuel than there are updates. The steps of Txn/System are the calls
-- of every operation, those of txn_map_get where it collects nothing; Txn/Collected shows why.
--
-- In Rcu every round of a loop and every `rcu_defer_free` is one step, since each count has one
-- writer and one reader; `head` and `tail` are 32 bits wide, and threads are registered before the
-- run. The assertions of `rcu_defer_free` are there: a call in which one fails does not return.

pub mod Base
pub mod Carray
pub mod Fifo
pub mod Lifo
pub mod Datatype
pub mod Map
pub mod LinkedList
pub mod Rcu
pub mod Murmur
pub mod Nstring
pub mod Random
pub mod Skiplist
pub mod Txn
pub mod HashTable
