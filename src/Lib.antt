-- ===== src/Lib.antt =====
-- spack-playground: programs and header libraries for persistent memory, threads and benchmarks.
--
-- The repository is a set of small programs under targets/apps and header libraries under
-- targets/libraries. The programs share the libraries: the benchmarks read their sizes with
-- pretty_bytes and synchronise their workers with the barrier of psync; the programs on persistent
-- memory keep a data structure in a pool of libpmemobj and change it in transactions, or by stores and
-- flushes in an order of their own. Each module below models one of them.
--
--   Prelude       shared names, lists and tests on native numbers, families indexed by threads
--   Effects       a result with a state: `done`, `threw` an exception, or `fault` for undefined
--                 behaviour; `transaction` is pmem::obj::transaction::run, which restores the state
--                 that it found when its body throws
--   Heap          nodes at addresses, allocation as a parameter that may fail, chains of nodes
--   PrettyBytes   targets/libraries/pretty_bytes/include/pretty_bytes/pretty_bytes.hpp: power, prettyTo
--   Exits         how a program ends: it returns, exits, throws, or is undefined
--   Queue         targets/apps/ppm_ch8_6_volatile_queue/main.cpp (push, pop, show) and the methods
--                 of targets/apps/ppm_ch8_7_persistent_queue/persistent_queue.hpp; Commands is main.cpp
--                 beside it, whose loop reads commands and calls the queue
--   BurstBuffer   targets/apps/pmembb_list/main.cpp: Writer (pwrite, tryPwrite, forEach,
--                 tryEnqueueFlush), Flusher (flushAll) and runtimeInitialize on a heap; History has
--                 the interleavings of the two threads of main, at the granularity of method calls,
--                 with restarts; Threads has what the two threads of main call
--   SimpleKv      targets/apps/ppm_ch11_4_simplekv/simplekv.hpp: get and put of simple_kv; Rebuild is
--                 targets/apps/ppm_ch11_5_simplekv_rebuild/simplekv_rebuild.hpp, with its constructor;
--                 Command and Rebuild/Commands are the main.cpp of the two: a process that gets or puts
--                 one key, and one that serves commands, on the pool that earlier processes left
--   AtomicBench   targets/apps/atomic_bench/main.cpp: the additions of its threads between the barriers
--   Barrier       targets/libraries/psync/include/psync/barrier.hpp: enter as steps under the mutex
--   Stripes       the blocks that the workers of the three benchmarks access: the test of the arguments,
--                 the split of the range, and what is left where an access fails
--   Pmem2Bench    targets/apps/pmem2bench/main.cpp with create_pmem2_source.hpp beside it: from the
--                 options to the bytes in the mapping and the report
--   PmemblkBench  targets/apps/pmemblkbench/main.cpp: the same over the blocks of libpmemblk
--   PmemobjBench  targets/apps/pmemobjbench/main.cpp: objects that are allocated, copied into, read
--   Synchronized  targets/libraries/synchronized_value/include/synchronized_value/synchronized_value.hpp:
--                 objects in a store, the mutex of each, and the calls of the threads; Guards has the
--                 guards, with unlock and lock of std::unique_lock, and the steps of all threads
--   Versioning    targets/apps/ppm_ch11_6_versioning_insert/main.cpp: insert and insert_element, and
--                 insert as its stores and persists, with what a crash between them may leave
--   WorkPool      targets/apps/thallium_custom_schedulers_and_pools/main.cpp: MyUnit and MyPool; Scheduler
--                 is MyScheduler and the indices of main
--   Detector      targets/libraries/phi_accrual_fd/include/phi_accrual_fd/window.hpp and
--                 failure_detector.hpp beside it; Phi has the statistics, phi, and the server of
--                 targets/apps/thallium_failure_detector/main.cpp
--   Medium        persistent memory under a crash: stores, flushes, drains and publications, and what a
--                 crash at any moment may leave at an address; Transactions has a transaction with its
--                 undo log as such operations
--   TextPool      targets/apps/ppm_ch7_1/main.cpp (pwriter) and targets/apps/ppm_ch7_2/main.cpp (preader)
--   Records       targets/apps/ppm_ch12_38_out_of_order_bug/main.cpp: records and their counter
--   Accounts      targets/apps/ppm_ch7_6/main.cpp and targets/apps/ppm_ch7_7/main.cpp: new_account, and the
--                 payment by published actions and by a transaction
--   Counters      targets/apps/ppm_ch14_1_counter/main.cpp and
--                 targets/apps/ppm_ch14_2_counter_fixed_but_still_buggy/main.cpp: threads that increment
--                 a counter in transactions, without and with a lock, and the recovery of the undo logs
--   DistCounter   targets/apps/pmem_distributed_counter/main.cpp: workers with an entry each, and their sum
--
-- A class is a record of its members, a method a function of the object named as in the source. The
-- state is passed on; an exception is a value. A member of type uint64_t or size_t is a native number, with
-- `% 2 ^ 64` where its arithmetic can wrap. Loops over linked nodes run on fuel, and the theorems
-- give the number of rounds that is enough: more than there are nodes. The other loops are recursion
-- on their number of rounds. A loop over the input ends by a measure of what is left of it, and its fuel
-- is more than that. The arithmetic of double, the allocator, the hash of a key, std::cin, std::shuffle and
-- the success of each allocation are parameters; a record states the documented behaviour relied on.
-- Medium states what libpmem and libpmemobj document: a store may reach the medium at any time, a flush with
-- a later drain makes it stay, and published actions and the end of a transaction take effect at once.
--
-- Not modelled: the parsing of options, output, timing and the opening of pools, which are calls of
-- libraries; the order in which the hardware writes back single stores inside a transaction, for which
-- libpmemobj answers; the remaining programs.
pub mod Prelude
pub mod PrettyBytes
pub mod Effects
pub mod Exits
pub mod Heap
pub mod Medium
pub mod TextPool
pub mod Records
pub mod Accounts
pub mod Counters
pub mod DistCounter
pub mod Queue
pub mod BurstBuffer
pub mod SimpleKv
pub mod AtomicBench
pub mod Barrier
pub mod Stripes
pub mod Versioning
pub mod WorkPool
pub mod Detector
pub mod Pmem2Bench
pub mod PmemblkBench
pub mod PmemobjBench
pub mod Synchronized
