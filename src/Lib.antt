-- ===== src/Lib.antt =====
-- Verification of aiotest: the asynchronous I/O library under include/backup and src/backup, and the
-- benchmark in include/iotest.hpp and src/iotest.cpp.
--
-- The library keeps a file behind a tree of nodes that cache parts of it. A client calls the tree, which
-- queues a task for a worker and returns a request. Workers run in rounds: the tasks of a round split
-- a read or write among the children of a node and queue one task for each of them, down to the
-- leaves, which go through their cache or to the engine. Locks that a node has taken for its children
-- are given back at the end of a round, and the request is notified.
--
-- Which file models which part:
--   Engine      include/backup/IOEngine.hpp and src/backup/IOEngine.cpp: what read and write of an engine
--               promise, which is a parameter of all that use it. Engine.Posix is POSIXEngine over
--               the calls of the system, and NullEngine; Engine.Stdio is CEngine over <cstdio>,
--               Engine.Fstream is STLEngine over std::fstream, and Agreement compares the three. What the
--               stream of an engine sees (bytes) and what is in the file (stored) are two things.
--   Controller  include/backup/Controller.hpp: the memory budget (usage) and the flush switch (flush), and
--               the number of workers that the constructor of src/backup/Controller.cpp makes.
--   Cache       include/backup/BTreeNodeBase.hpp and src/backup/BTreeNodeBase.cpp: a node with its cached
--               prefix, as a record. prefetch, cachedRead (cached_read), cachedWrite (cached_write, cut
--               into absorb and settle), fread, fwrite, unlock, BTreeConfig::operator() (toggle).
--               View says what can be read through a node and when its cache is coherent; Read and
--               Write are about the bytes, Effects about locks and failure flags.
--   Leaf        BTreeNode<first> of include/backup/BTree.hpp: read, write, flush, evict, drop, detach, gc.
--   Node        BTreeNode<first, rest...> of the same file: the requests that read and write push for the
--               children (pieces). Node.Ranges and Node.Tiling are about their bounds, Node.Order about their union,
--               Node.Locks about the walk of an unlock up the tree.
--   Inner       the same class: read, write, flush and detach in all their branches, with what they push for
--               the children and the children they make (touch). Inner.Reads and Inner.Writes are about
--               the branches that answer themselves, Inner.Locks about the locks of a split.
--   Siblings    the leaves of a tree, with what they share (the file, the budget, the flags), and the
--               tasks of a read or write, run one after the other by a worker (read_children,
--               write_children). Siblings.Descent is the rounds in which a request comes down to them, split
--               at every level of inner nodes (push_all, descend).
--   Subtree     the nodes below a node as a tree of pages: merge, drop, dropChild.
--   Collector   the queue `cache` of include/backup/Controller.hpp, and the cases GC and Flushing of
--               src/backup/Worker.cpp, in which all workers take nodes from it (sweep_move,
--               flush_move). Accounts says which nodes stand in the queue and what memory they take,
--               Steps is about all the steps of the program, Sweep and Flushed about the two phases;
--               the other files are lemmas on the turns of the workers.
--   Request     include/backup/IOCtrl.hpp: lock, unlock, fail, notify, operator() (poll), wait.
--   Queue       include/backup/TLQ.hpp and src/backup/TLQ.cpp: push, operator() (claim), setup, roll.
--   Tree        the class BTree of include/backup/BTree.hpp: the calls of a client, and pushPending of
--               src/backup/Worker.cpp. Tree.Ids is its identifier, with usedID and IDCount of
--               include/backup/BTreeBase.hpp.
--   Worker      run of src/backup/Worker.cpp, for the worker that decides: decision (decide), the switch
--               (body) and one turn of the loop (turn). Worker.Barrier is barrier, by all workers, as a step
--               relation. Worker.Machine has all workers with the first one's decisions and the
--               destructor of src/backup/Controller.cpp with its wait (close_move), from the end of the
--               constructor (built): a move is a step of the barrier, a decision with the body of its
--               phase, or a store or load of the destructor. Its Returns is about runs in which all go
--               on moving, Waits about any run; the other files are lemmas for the two.
--               Worker.Stealing is steal; Worker.Local is getTL of include/backup/Worker.hpp
--               and Worker.Ids its identifiers. Worker.Levels is sync of BTreeNode with the tasks of
--               read and write, which go down one level in each round.
--   Aio         include/backup/aio.hpp: descriptors, shutdown and error numbers. Aio.Calls is the calls on a
--               control block (aio_read, aio_error, aio_wait, aio_return and so on).
--   Benchmark   include/iotest.hpp and src/iotest.cpp: settings, random offsets, backends; Handle is the
--               shared file of RandomWrite, Blocking the calls of BlockingWrite and FstreamWrite,
--               Callbacks the control blocks of AIOWrite (wait_cb_common), Pending the outstanding
--               requests of LibAIOWrite. Driver is run_common of test/multi_thread_comp.cpp, the calls
--               that a thread of the benchmark makes.
--   Prelude     shared names, tests on numbers, lists, 64-bit words and bit masks, byte buffers.
--   Tests       each theorem that has conditions or inputs, applied to concrete ones.
--
-- How it is modelled. A word of 64 bits is a natural number and its arithmetic is written with the
-- wrap-around (add64, sub64, neg64); masks are the bit operations on numbers. Memory and files are
-- functions from positions to bytes, and a pointer into the caller's buffer is a position in it. A method
-- returns the node, or request, or queue after it. An atomic operation is one step; where threads come
-- between, their order is an argument: the list of events on a request, the number of claims on a
-- queue, the pushes made during a phase, the values that the reject flag has at each push.
--
-- Bounds. The loop over the children between the first and the last has as much fuel as a node has
-- children, which Node.Tiling shows to be enough. The loop of the worker takes its number of turns as
-- an argument. The loops that claim until nothing is left, and that poll a request until it has ended,
-- have fuel as well, and are shown to end with more of it than there are tasks or polls in vain.
-- The workers that collect take turns from a list, in any order, and are shown to end when each has a
-- number of turns that the queue bounds. The search for a free identifier has fuel; it ends if one of
-- the numbers within the fuel is free.
-- Runs of the machine are cut into blocks in which every worker and the destructor move at least once;
-- how many blocks are enough is 229 turns of the first worker's loop, each of which takes a block
-- for each step that it waits for, and the blocks in which the others and the destructor come to their end.
-- A shift of the budget by 64 or more, undefined in C++, yields an unknown number.
--
-- Not modelled: a request that one inner node answers from its own cache while others split theirs, and the
-- size of the file in the rounds of Siblings (the root cuts a partial read off or fails it, and makes the
-- file longer for a write, before it splits, which Inner has but those rounds leave out); the creation
-- of threads, which is the system's; the order of relaxed atomics, which are taken as sequentially
-- consistent; logging; allocation that fails; the test programs, but for the calls of one thread of
-- the benchmark.
pub mod Prelude
pub mod Engine
pub mod Controller
pub mod Cache
pub mod Leaf
pub mod Node
pub mod Siblings
pub mod Subtree
pub mod Inner
pub mod Collector
pub mod Request
pub mod Queue
pub mod Tree
pub mod Worker
pub mod Aio
pub mod Benchmark
mod Tests
