-- ===== src/Lib.antt =====
-- xv6 for RISC-V: a model of the kernel's core, and what it guarantees.
--
-- The kernel keeps its state in global tables, each behind a lock, and the modules below have one
-- record for each of them and one function for each C function that reads or changes it. A
-- function that holds its lock from entry to return is one step; a function that sleeps is cut at
-- the sleep, and the rest of it is a further step that starts from whatever the table holds
-- by then. What a function learns from other parts (user memory, the outcome of a page-table copy)
-- is an argument. A panic is a value.
--
-- Parts and files:
--   Prelude   shared names, lists over native numbers, Boolean tests, C int results
--   Log       kernel/log.c: struct log, begin_op, end_op, log_write, commit and recovery. It runs
--             over Buffers. Header: the header block; Blocks and Loops: what the copying loops do
--             to the disk; Recover: recovery from any disk; Crash and Atomic: stages of a commit;
--             Reserve: log space as a step relation over calls; Pins: reference counts
--   Buffers   kernel/bio.c as its clients see it: bread, bwrite, brelse, bpin, bunpin by block,
--             with a record of every disk that a write leaves behind, which a crash may find
--   Bcache    kernel/bio.c inside: slots, the recency list, bget's two scans, recycling
--   Kalloc    kernel/kalloc.c: the free list threaded through the pages
--   Vm        kernel/vm.c: walk, mappages and walkaddr over page-table pages in memory. Tree: the
--             tables as a tree; Hung and Walk: what walk adds and finds; Page and Map: mappages as
--             a map of pages; Flags: the bits of an entry; Sample: a small address space for the runs
--   Uvm       kernel/vm.c: uvmunmap, uvmalloc, uvmdealloc, uvmcopy, freewalk and the rest, over
--             Vm. Pages: an address space owns its pages; Unmap and Range: uvmunmap of a page,
--             of a range, and uvmdealloc
--   UserCopy  kernel/vm.c: copyin (Bytes), copyinstr (Str) and copyout (Out) by pages, over Vm,
--             and the two together (Round)
--   Bitmap    kernel/fs.c: bzero, balloc and bfree. Bits: a bit of a byte; Alloc: the allocator
--   Inode     kernel/fs.c: the inode cache (Get), locks, reference counts, ialloc, iupdate, bmap
--             (Blocks, Map) and itrunc (Trunc), over Bitmap. File and Grown: a file's blocks, and
--             a new one
--   FileData  kernel/fs.c: readi (Read) and writei (Leaves, Write, Close), over Inode, and the two
--             together (Round). Owned: a file's blocks are its own; Wrote: a store of bytes into
--             a file; Cleared, Freed and Truncate: itrunc; Discard: iput; Sample: a file of one
--             block
--   Directory kernel/fs.c: dirlookup (Lookup) and dirlink (Empty, Linked, Link), over FileData
--   PathName  kernel/fs.c: skipelem and namex (Elements), the inode operations as arguments
--   Pipe      kernel/pipe.c: the ring with wrapping counters, in turns between sleeps
--   Memory    kernel/string.c over a flat memory
--   Proc      kernel/proc.c: the process table, fork, exit, wait, kill, sleep and wakeup, and the
--             choice of the scheduler
--   Spinlock  kernel/spinlock.c: acquire and release by single instructions of interleaved CPUs
--             (Safe, Exclusion), push_off and pop_off (Nesting)
--   Sleeplock kernel/sleeplock.c: processes at a sleep lock (Waiting)
--   Files     kernel/file.c: the file table and its counts (Refs), fileread, and filewrite in
--             chunks (Transfer)
--   Console   kernel/console.c: the input ring (Ring, Moves) and consoleintr (Intr)
--   Printf    user/printf.c, and atoi of user/ulib.c (Round)
--   Shell     user/sh.c: tokens (Words), and the parser (Parse), which ends (Ends, Total) and reads
--             back printed commands (Print, Loops, Levels, Round)
--   Grep      user/grep.c: the regular-expression matcher
--
-- Numbers: a uint counter is kept below 2^32 with its wrap-around written out, a user address below
-- 2^64. Fuel: kinit's loop needs more fuel than there are pages to free, strlen's more than the
-- string is long, and filewrite's loop more than there are bytes; their theorems say that this is
-- enough. mappages and the user copies need more fuel than there are pages in the range, freewalk
-- needs fuel for the depth of the tree, readi and writei more fuel than bytes, dirlookup and
-- dirlink more than the directory has entries, namex more than the path has bytes, and the shell's
-- parser five more than four times the bytes of the line. All other loops are structural.
--
-- A crash stops the machine between two block writes: the disk does each of them whole.
--
-- Not modelled: the locks that a step of the other modules holds, interleavings inside a step,
-- assembly, device drivers, traps, file system set-up, and the user programs other than grep,
-- printf and the shell's parser. In Vm a page of a table is separate from the bytes of data pages,
-- and a physical address is below 2^54, as in Sv39 entries; the linker's `end` is a field of the
-- memory. Buffers stands for a block cache that always has a free buffer, whose callers hold the
-- locks of theirs: the panics of bread, bwrite and brelse are not in it, nor in the modules over
-- it. In Inode the blocks are those that the running transaction sees, buffers included, a null
-- pointer to an inode does not occur, and who drops a reference to an inode holds one. nextpid and
-- the pids are ints by their 32 bits.
pub mod Prelude
pub mod Bcache
pub mod Bitmap
pub mod Buffers
pub mod Console
pub mod Directory
pub mod FileData
pub mod Files
pub mod Grep
pub mod Inode
pub mod Kalloc
pub mod Log
pub mod Memory
pub mod PathName
pub mod Pipe
pub mod Printf
pub mod Proc
pub mod Shell
pub mod Sleeplock
pub mod Spinlock
pub mod UserCopy
pub mod Uvm
pub mod Vm
