-- ===== src/Lib.antt =====
-- The OS/161 kernel of this repository (os161/src/kern): its processes, threads, files and memory.
--
-- A file models the part of the kernel named beside it; a function of the model has the name of
-- the C function, or is a loop or a tail of it, as the comment above it says.
--
--   Common      C's comparisons, conditionals, arrays, 32-bit words, and memory as bytes; finite
--               sums; the error codes (os161/src/kern/include/kern/errno.h).
--   Coremap     os161/src/kern/vm/coremap.c: the map of physical memory. Search: the first-fit
--               search of `getpaddr`. Chunks: what `removefromcoremap` frees. Boot: the layout
--               that `coremap_bootstrap` makes.
--   Kpages      os161/src/kern/vm/vm.c: pages for the kernel, on top of Coremap. Alloc:
--               allocation and its reverse.
--   AddrSpace   os161/src/kern/vm/addrspace.c, and `page_alloc` and `sys_sbrk` of
--               os161/src/kern/vm/vm.c: address spaces, on top of Coremap. Pages: the page
--               table. Faults: `vm_fault` and the TLB. Regions: creation and regions. Break: the
--               heap. Copying: `as_copy`, `as_destroy` and `as_complete_load`; Copies: the pages
--               of a copy.
--   Process     os161/src/kern/syscall/process_syscalls.c, with `thread_fork` and
--               `thread_bootstrap` of os161/src/kern/thread/thread.c: the process table. Slots:
--               pids. Table: what a fork does to the table. Wait: the outcomes of `sys_waitpid`.
--               Life: fork, exit and wait together. History: histories of calls. Signals: the
--               exit semaphores. Races: two forks at once.
--   FileTable   os161/src/kern/syscall/file_syscalls.c, with the file tables in `thread_fork`
--               and `thread_exit`: open files. References: the count of a handle. Calls, Tables:
--               single calls and whole tables. Opening, Closing, Sharing: `sys_open`, the last
--               close, descriptors that share a handle. Console: `init_filetable`. History:
--               histories of calls. Races: a close and a fork at once.
--   Synch       os161/src/kern/thread/synch.c and the wait channels of
--               os161/src/kern/thread/thread.c: semaphores (Units), locks (Owner), condition
--               variables (Signals), reader-writer locks (Readers), and the memory that they
--               take (Create).
--   Synchprobs  os161/src/kern/synchprobs/problems.c, as clients of Synch. Stoplight: the
--               intersection, with its quadrants (Quadrants), that it never stands still
--               (Progress), and its end (Emptying). Whales: the whale mating.
--   Execv       `sys_execv` of os161/src/kern/syscall/process_syscalls.c. Layout: the arguments on
--               the stack of the process. Errors: what each outcome keeps.
--   Threadlist  os161/src/kern/thread/threadlist.c: linked lists of threads. Segments: chains of
--               nodes. Insertion, Removal: the links of a node. Lists: what the nodes stand for.
--               Elsewhere, Adding, Taking, Gaps: what a change of links is for the lists. Calls:
--               what each call promises, and its code. Inits, Refines: every call. History: all
--               histories of calls.
--   Bitmap      os161/src/kern/lib/bitmap.c: bit maps. Bits: one word. Words: all of them. Alloc: the
--               first clear bit. Marks: single bits. Create: new maps.
--   Scheduler   os161/src/kern/thread/thread.c: processors, run queues and wait channels. Places:
--               where a thread is. Invariant: forks and wake-ups. Puts, Switch, Next: the parts of
--               `thread_switch`. Migrate: `thread_consider_migration`; Migration, Sending: what it
--               keeps. Steps, History: all histories of the processors.
--
-- State is passed explicitly: an operation takes the state and gives back a result and the next
-- state. What several threads do is a step relation, whose runs are all finite sequences of steps in
-- any order. In Synch, Synchprobs and Scheduler a step is what the source runs under one lock; in
-- Scheduler a wake-up and a migration, which hold one lock after the other, are one step too. In
-- Process and FileTable the source holds no lock, and a step is a whole call: what is said of their
-- histories is said of calls that each run to their end before the next begins, and the modules
-- called Races are about calls that do not. A C pointer is the number of a block or of a place in a
-- table; where the code would follow a pointer to nothing, write through NULL or behind the end of an
-- array, or an assertion panics, the model has `none` (`corrupts` in Execv). Two such writes are left
-- out: `argvptr[kbufsize]` of `sys_execv`, and the strings that check a user's buffer by a copy into
-- one byte.
--
-- Machine words are natural numbers with the wrap-around of 32 or 64 bits written out, except for
-- `pid_counter` and the counts of references and of semaphores; the histories of Process are those
-- whose `pid_counter` is below 2^31. Loops are structural recursion on the array or on the number of
-- rounds that the source gives as the bound (OPEN_MAX, __PROC_MAX, the entries of the map), so no fuel is needed. The sizes 4096
-- (PAGE_SIZE), 338 (PTABLE_ARRAY_SIZE), 128 (OPEN_MAX), 100 (__PROC_MAX) and 30 (max_readers) are
-- those of the source.
--
-- Parameters stand for what these parts call: whether `kmalloc` succeeds (where `addPageEntry` calls
-- it for a table, by what `alloc_kpages` returns; the failure of `as_create` and of the `kmalloc`
-- within `as_copy` is left out), what memory held before it is written, which addresses of the stack
-- `copyout` can write, the results of the file system (`vfs_open`, `VOP_STAT`, `VOP_READ`, ...) and of
-- `copyinstr`, and the entry that `tlb_random` takes.
--
-- Not modelled: the contents of user pages; interrupt levels; `as_prepare_load`
-- and `removePageEntry`; `sys_chdir` and `sys__getcwd`; the virtual file system and SFS (vfs, fs),
-- the device drivers (dev, arch), the rest of the kernel's library (lib) and the C library
-- (os161/src/common, os161/src/user). The other projects of the repository are not written in C.
pub mod Common
pub mod Coremap
pub mod Kpages
pub mod Process
pub mod Synch
pub mod FileTable
pub mod AddrSpace
pub mod Synchprobs
pub mod Execv
pub mod Threadlist
pub mod Scheduler
pub mod Bitmap
