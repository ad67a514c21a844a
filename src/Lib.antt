-- ===== src/Lib.antt =====
-- A model of d4np-c, an ISO C library of allocators, containers and utilities, and what makes its
-- parts correct.
--
-- The program's parts, and the files that model them. Each file opens with the source files that it
-- is about, and a definition has the name of its C function without the prefix (`push` of
-- Ds/Vector.antt is d4np_vector_push).
-- - d4np/core: the status codes (Core/Status.antt) and the allocator, a record of callbacks that
--   every owner of memory calls (Core/Allocator.antt; its contract and the default allocator in
--   Core/Default.antt; a heap to run tests on in Core/Model.antt).
-- - d4np/ds: the vector (Ds/Vector.antt), the ring buffer (Ds/RingBuffer.antt), the string
--   builder (Ds/StringBuilder.antt) and the hash map (Ds/HashMap/State.antt, Probe.antt,
--   Resize.antt and Methods.antt), each over blocks from an allocator; the intrusive linked list
--   (Ds/LinkedList.antt), over a heap of links that the caller owns.
-- - d4np/mem: the arena (Mem/Arena.antt), which hands out ranges of one block, and the pool of fixed
--   slots (Mem/Pool.antt), whose free list runs through the slots.
-- - d4np/concurrency: the thread pool, its task queue and critical sections
--   (Concurrency/ThreadPool.antt), the interleaving of workers, submitters and destroy as steps
--   (Concurrency/ThreadPool/System.antt), the order in which workers run while they are joined
--   (Concurrency/ThreadPool/Schedule.antt), init and destroy (Concurrency/ThreadPool/Setup.antt).
-- - d4np/str: string views and splitting (Str/View.antt), which the string builder uses, and the
--   parsing of integers (Str/Parse.antt).
-- - d4np/io: the joining of paths (Io/Combine.antt); d4np/sys: FNV-1a hashing (Sys/Hash.antt), the
--   error context of a thread (Sys/ErrorContext.antt) and UUIDs (Sys/Uuid.antt).
-- A component's file has its state and operations, the files below it the proofs, and its Tests
-- file the runs at concrete inputs. Base.antt and the files below it have what they share.
--
-- How the code is read:
-- - size_t and uint64_t have 64 bits; sums, differences and products carry their `% 2 ^ 64`
--   (Base/Word.antt). int64_t results are integers in its range (Base/Integers.antt).
-- - A pointer argument that may be NULL is an Option. A block of memory is the list of its bytes,
--   owned by one structure, so addresses are left out and a pointer into a block is an offset; a
--   pointer into a text is the list of the bytes from there on.
-- - memcpy and stores are bounds-checked: an access outside a block gives `none`, which stands for
--   undefined behaviour, so that a theorem that gives a result `some r` says that the code stays
--   inside its blocks and returns.
-- - malloc, realloc and free belong to the C library. They are a parameter (`Libc` in
--   Core/Allocator.antt), with the documented laws in Core/Default.antt, over a type of heap states;
--   so is the address at which a returned block stands.
-- - An argument that points into the structure's own block (pushing an element of the same
--   vector) is outside the model: arguments are passed as their bytes.
-- - How a pointer is laid out in the bytes of a pool's slot is a parameter (`Layout` in Mem/Pool.antt)
--   that reads back what it wrote. The nodes of the linked list and of the task queue are addresses,
--   and a heap gives their contents.
-- - pthreads belong to the system: whether a mutex, a semaphore or a thread is made is a parameter,
--   a permit is a number, and what runs between lock and unlock is one step. A task is taken to end.
--   During the joins the workers run under a schedule, a parameter that lets each of them move in
--   every round, and a join gives no result while its worker is still in its loop.
-- - isspace is that of the C locale, and the path separator that of POSIX.
--
-- Loops are structural where the source counts down or walks a text. On fuel are: the doubling of a
-- capacity to a power of two (64 values up to 2^63 from 1, and 61 from 8, where the loop stops by its
-- own test; without fuel it has no result), the doubling of the string builder's capacity (65 rounds
-- pass 2^64), and d4np_str_split (each round but the last two takes a separator off the view, so that
-- its length plus two rounds are enough).
-- The loops over linked nodes (the list's macro, destroy of the thread pool) take a round for each
-- node, and the list's macro one more for the sentinel.
--
-- Not modelled: files, the log and the lock-free queue; the ring buffer's calls are whole steps, not
-- single loads and stores; the parsing of floating-point numbers, which strtod of the C library does;
-- clocks, mutexes and semaphores, which only call the system; the Windows branches.
pub mod Base
pub mod Concurrency
pub mod Core
pub mod Mem
pub mod Ds
pub mod Str
pub mod Io
pub mod Sys
