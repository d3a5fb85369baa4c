-- ===== src/Lib.antt =====
-- The programs of this repository: a teaching kernel for RISC-V (initial-xv6/src), changed to have
-- a priority-based scheduler (PBS) and copy-on-write fork, and two thread simulations
-- (concurrency).
--
-- Parts and files:
-- Proc: `struct proc` and the table `proc[NPROC]` (initial-xv6/src/kernel/proc.h). A slot is a
--   record, the table a function of the index, a pointer into it an index; `int` fields are
--   integers whose operations wrap at 32 bits (Common/Int).
-- Sched: the PBS round of `scheduler` with `dp_priority`, and `update_time` and `setpriority`
--   (initial-xv6/src/kernel/proc.c). Sched/Order, Scanning, Choice, Priority and
--   Accounting hold the proofs.
-- Phys, Kalloc: physical memory and the page allocator with a reference count for each page
--   (initial-xv6/src/kernel/kalloc.c). Kalloc/Counts says when the counts are right, Calls what
--   each call does, Owners refines the allocator to a map from pages to numbers of owners, Boot is
--   `kinit`.
-- Vm: page tables (initial-xv6/src/kernel/vm.c). Vm is `walk` and `walkaddr`, Vm/Map the mapping,
--   growing and freeing, Vm/Cow `uvmcopy` and the copy-on-write fault, Vm/Copy the copies between
--   kernel and user. Vm/Bits, Lookup, Copyin and Break hold the proofs.
-- Life: the life cycle of a process (initial-xv6/src/kernel/proc.c): `allocproc`, `freeproc`,
--   `growproc`, `wakeup`, `kill`; Life/Wait has `reparent`, the end of `exit`, `wait` and `waitx`,
--   Life/Fork `fork`. It calls Kalloc, Vm, File and Bytes. Life/Signals, Free, Reaped, Reap, Found,
--   Alloc and Fork/Files hold the proofs.
-- Trap: store faults, the clock and the fetching of arguments (initial-xv6/src/kernel/trap.c and
--   syscall.c). It calls Vm, Life and Sched; Trap/Fault holds the proofs.
-- Pipe: the ring of a pipe (initial-xv6/src/kernel/pipe.c), which calls the copies of Vm/Copy.
--   Fifo is the ring as a queue, Transfer whole writes, Reading whole reads.
-- Spinlock: the spin locks (initial-xv6/src/kernel/spinlock.c) as interleaved steps of any number
--   of processors and one lock; Spinlock/Exclusion holds the proofs.
-- Sleeplock: the sleep locks (initial-xv6/src/kernel/sleeplock.c), with `sleep` and `wakeup` of
--   proc.c step by step, as any number of processes take one; Sleeplock/Inv, Acquire, Release and
--   Wakeups hold the proofs.
-- File: the table of open files (initial-xv6/src/kernel/file.c); File/Refs is its reference
--   counts.
-- Log: the write-ahead log (initial-xv6/src/kernel/log.c) over blocks as buffers show them, with
--   every content the disk has had, so that a crash can come at any write. Log/Overlay is what a
--   log on disk stands for, Install, Crash, Commit and Append hold the proofs.
-- Bio: the buffer cache (initial-xv6/src/kernel/bio.c), with the list of buffers in the order of
--   their use. Bio/Lookup is its two searches, Views what readers of blocks see, Reads is `bread`.
-- Fs: of the file system (initial-xv6/src/kernel/fs.c), the free bitmap, the blocks of a file
--   (Fs/Inode) and the names of paths. Fs/Bits and Bitmap are the bits, Alloc and Allocs `balloc`
--   and `bfree`, Table and Bmap `bmap` against the table of a file's blocks, PathNames `skipelem`
--   in the loop of `namex`.
-- Grep: the program grep (initial-xv6/src/user/grep.c): Grep/Match is its matcher against the
--   meaning of a pattern, Lines and Stream its loop over a file.
-- Bytes: memory and string routines (initial-xv6/src/kernel/string.c).
-- Ring: the ring of semaphores of both programs of concurrency, and in Ring/Threads the threads as
--   a step relation, for any turns, with the simulation that every schedule of them plays.
-- Cafe: the café of concurrency/1.c: turns of baristas and customers as functions on the shared
--   state, and its threads in the ring (Cafe/Ring). Cafe/Inv, Leaving and Simulation hold the
--   invariant, Accounts what follows from it, Due, Making and Settling the times by which orders
--   are settled, Keeps and Progress the runs of the threads, Totals and Waits what `main` sums up
--   at the end: the waiting times in an `int` that wraps, the wasted coffees, of which there are at
--   most as many as customers, as a number.
-- Parlour: the ice-cream parlour of concurrency/2.c: the turns of machines, in Parlour/Toppings
--   the stock, in Parlour/Customers the turns of customers, in Parlour/Opening what `main` sets
--   up. Parlour/Numbers is the numbering of the orders, Stock how toppings are used, Inv, Machines
--   and Own the invariant of machines and orders, Seats, Arrivals, Departures and Untouched that
--   of the customers, Simulation both along the turns of the ring, Turns how many turns a thread
--   has had, Accounts what follows for the threads. `IsInput` of Simulation is
--   what Accounts asks of the input; an ice cream with more toppings than there are kinds is outside
--   of it.
-- Common: helpers that the parts share. Each part has its tests and examples in its module Tests.
--
-- The code that changes memory runs in a monad on physical memory whose runs end with a value or
-- stop the machine, as `panic` does. A function that keeps a lock while it works is one atomic
-- step; the spinning for a lock is modelled in Spinlock and Sleeplock alone.
--
-- Bounds: NPROC is 64, PGSIZE 4096, MAXVA 2 ^ 38, PHYSTOP as in memlayout.h. The loop of
-- `mappages` has 2 ^ 26 + 1 rounds, since `walk` stops the machine from MAXVA on; `freewalk` goes
-- down three levels, since a page table has no more; the loops of `copyout`, `copyin` and
-- `copyinstr` have a round for each byte, and each round moves at least one; `strlen` has a number
-- of rounds as an argument; `grep` has a round for each call of `read`, which gives at least one
-- character before the end of the file, and its inner loop one for each character of the buffer;
-- the loop of `namex` has one for each byte of the path, and each name has one at least.
--
-- Not modelled: the boot, interrupts and devices, context switches, the rest of inodes and
-- directories, reading and writing of files, the other traps, the dispatch of system calls, the
-- reading of the input of concurrency/1.c and 2.c and what they print, the round-robin branch of
-- the scheduler, the other user programs. Of `exit` only what the parts above name.
pub mod Common
pub mod Proc
pub mod Sched
pub mod Phys
pub mod Kalloc
pub mod Vm
pub mod Ring
pub mod Cafe
pub mod Parlour
pub mod Life
pub mod Bytes
pub mod Pipe
pub mod Spinlock
pub mod Sleeplock
pub mod File
pub mod Log
pub mod Bio
pub mod Grep
pub mod Trap
pub mod Fs
