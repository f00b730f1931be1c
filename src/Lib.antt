-- ===== src/Lib.antt =====
-- skippy-rs: a skip list for one thread, a skip list for many threads, and a priority queue over either.
--
-- What is modelled, by file of the repository:
--   * src/internal/utils/node.rs, the header word of a node: Node. A word has 64 bits; from the top it
--     holds the `removed` flag, the count of levels that link the node and the height. Each method is a
--     command on the word, with the wrap-around of the atomic operations written out.
--   * src/internal/utils/node.rs, allocation, release and access, and the loads and plain stores of
--     src/internal/sync/tagged.rs: Store. Memory is a function of the address for each field. A read
--     through null, of a released node, past the end of a tower or of a key never written is the
--     outcome `fault`; a Rust panic is `panic`, a failed allocation `abort`. A link is the pair of a
--     pointer and a tag that a `MaybeTagged` holds. What the allocator returns is an argument.
--   * src/internal/sync/tagged.rs: Tagged. A word holds an aligned pointer and a tag below the
--     alignment, which is an argument.
--   * `tag_levels` and `try_remove_and_tag` of src/internal/utils/node.rs and `Entry::remove` of
--     src/internal/sync/mod.rs: Removal, with no other thread in between.
--   * `unlink_level`, `sub_ref` and `retire_node` of src/internal/sync/mod.rs: Unlinking, likewise.
--   * `IntoIter` of src/internal/sync/iter.rs: OwnedIter. Its owner is the only thread.
--   * src/internal/utils/mod.rs, `skiplist_basics!`: Basics, with `new`, `len`, `is_empty`,
--     `gen_height` and `drop`. What `rand::random` returns is an argument.
--   * src/internal/skiplist.rs: SkipList (`find`, `insert`, `insert_conditionally`, `remove`,
--     `remove_first`, `unlink`, `unlink_level`) and SkipList.Walk (`get`, `get_first`, `get_last`,
--     `next_node`, `traverse_with`, `entry` and the iterators). The mutable variants run the same code.
--   * src/collections/priority_queue.rs over that list: PriorityQueue. The values are the keys.
--   * src/internal/sync/mod.rs: Sync (`find`, `get`), Sync.Update (`insert`, `link_nodes`, `remove`,
--     `unlink`) and Sync.Walk (`next_node`, `get_first`, `get_last`), with `Iter` and `FromIterator` of
--     src/internal/sync/iter.rs and `from_maybe_tagged` of src/internal/sync/tagged.rs. The methods run
--     over the same store as the single-threaded list, with no other thread in between.
--   * src/collections/priority_queue.rs over the concurrent list: PriorityQueue.Shared.
--   * `set_removed` of src/internal/utils/node.rs among other threads: Race. A call is two atomic
--     accesses of the header word; a relation steps any number of callers, and of threads that count
--     references, in any order. Race.Frozen does the same for the exchanges of links and the writes of
--     headers, each of which is one step over the whole store.
--   * `find`, `get`, `insert`, `link_nodes`, `remove`, `unlink` and `Entry::remove` of
--     src/internal/sync/mod.rs and what they call, among other threads: Threads. A method is a program
--     whose steps are atomic accesses of the shared memory, and a relation steps the programs of any
--     number of threads in any order. Its loops run on a fuel that each thread is given. The node of an
--     `insert` is allocated, with its height, before the threads start. No node is freed while the threads
--     run: that is a condition of the model, not something that it shows of the code. `unlink` ends with
--     `eager_reclaim`, which in Threads finds every retired node protected and so leaves it allocated.
--     Threads.Leak is about the reference that `link_nodes` takes back after a failed exchange.
--
-- Sync.Trace takes any sequence of insertions and removals of the concurrent list.
--
-- How the proofs are laid out: Base has the shared names. Cells has the well-formedness invariant
-- `IsList`: the memory holds exactly the nodes of a list of cells, at every level, with ascending keys,
-- and the length and greatest height agree. Spec has the ordered map that the cells stand for. A
-- theorem about a method states its run on a well-formed list, with the list and the map that it leaves.
-- `IsShared` (Sync.Domain) adds for the concurrent list that no linked node is retired. Hazard pointers
-- are a parameter: a `Domain` is what `eager_reclaim` does, which may free some of the nodes that are
-- retired and nothing else; `unlink`, `drop` and the end of `into_iter` run it. Tests has concrete lists.
--
-- Threads.Calls has the calls that threads make and the memory in which they are safe (`Towers`). It asks for
-- the order of the keys on the lowest level only: `find` looks at the levels from `max_height` down, which two
-- calls of `insert` may leave below the tallest tower. Threads.Safe gives each program of Threads what it may
-- rely on and what it owes at each access, so that a proof about a method among other threads reads like one
-- about its code.
--
-- Threads.Alone relates a program that no other thread interrupts to the command of Sync that models the same
-- method, for `find`, `get`, `insert`, `remove` and `Entry::remove`. There a thread frees nothing, as if a hazard
-- pointer protected every node. Threads.Alone.Turns has calls that threads make one after the other.
--
-- Bounds: keys are natural numbers, with their order for `Ord`; values are of any type. The loops over
-- a level run on fuel: one round for each node of the list and one that finds the end, and for `find`
-- one more for each level. Each round moves on by a node or down by a level, so that is enough on a
-- well-formed list. The length is below 2^64, so that the counter does not wrap.
--
-- In the concurrent list `'_search`, the retry of `link_nodes`, the removal of old nodes by `insert` and
-- the protection of a pointer are loops too, on fuel of a round more than the length (two for the
-- removal). They go round again only when another thread came in between, so that the first round is
-- enough without one.
--
-- Not modelled: the walks and iterators of the concurrent list among other threads (`next_node` reads out of
-- bounds at a node that is removed under it, so that they are not safe there), weak memory orders (each
-- atomic access is sequentially consistent); the `Debug` and
-- accessor impls; hazard pointers, which are the crate `haphazard`; padding (src/internal/utils/padded.rs), the
-- trait signatures of src/skiplist.rs, formatting, the benchmarks, the fuzz target, and `From` for the concurrent
-- list, a transmute between two types whose layout Rust does not specify. The release of retired nodes while
-- other threads run is not modelled either: at a removed node `from_maybe_tagged` checks a link that does not
-- change any more, and can return a node that was freed.
pub mod Base
pub mod Node
pub mod Store
pub mod Tagged
pub mod Basics
pub mod Cells
pub mod Spec
pub mod SkipList
pub mod Removal
pub mod Unlinking
pub mod OwnedIter
pub mod Race
pub mod Threads
pub mod Sync
pub mod PriorityQueue
pub mod Tests
