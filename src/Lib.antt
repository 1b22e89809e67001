-- ===== src/Lib.antt =====
-- OS/161, an instructional operating system kernel: the parts of kern/ that other parts stand on,
-- with the theorems that make them correct.
--
-- The kernel keeps its page frames and its swap slots in two tables of entries, each with a bitmap
-- of the entries in use (Vm over Bitmap). A page fault looks for the page in the first table, then
-- in the second, and moves pages between memory and the swap file; kernel buffers and user memory
-- exchange data by uiomove, which stands on copyin and copyout (Uio over Copyinout). Small blocks
-- of kernel memory come from kmalloc, on pages of alloc_kpages (Kmalloc). The threads that can run
-- are on a list of threadlist.c, which schedule orders (Schedule over Threadlist); they exclude and
-- wake each other by Spinlock, Semaphore, Lock and Rwlock. A path name leads through Vfs to a file
-- system; SFS marks the blocks of its files in a bitmap (Sfs over Bitmap), and its directories bind
-- names to inodes (Directory).
--
-- Files:
--   Prelude (with Tests, Lists, Members, Bits): numbers, lists and bit operations; Outcome: what a call comes
--     to, with KASSERT and an access out of range as `panic`; Memory: bytes by address; Errno.
--   Bitmap: kern/lib/bitmap.c, one function each under its own name. Word: facts on one word; Marks:
--     the invariant, and setting and clearing bits; Search: bitmap_alloc; Create: bitmap_create.
--   Copyinout: kern/vm/copyinout.c. Check: copycheck; Block: copyin and copyout; Text: copyinstr
--     and copyoutstr. setjmp and tm_badfaultfunc are the data type Copied and a field of Machine.
--   Uio: kern/lib/uio.c. Move: counts and termination; Kernel: the memory after a transfer.
--   Vm: kern/vm/addrspace.c, and tlb_invalidate of kern/arch/mips/vm/vm.c. State: the globals and
--     coremap_insert, coremap_remove, coreswap_insert and their like; Swap: get_free_page, swap_in,
--     swap_out, alloc_page; Fault: the searches and the fault handlers;
--     Boot: coremap_init and coreswap_init; Contiguous: alloc_npages. Coremap, Slots, Transfers,
--     Frames, Search, Alloc and Owner hold lemmas and theorems.
--   Region: kern/arch/mips/vm/vm.c and kern/arch/mips/vm/ram.c. Bounds: as_define_region and sbrk;
--     Steal: ram_stealmem; Slot: vm_fault; Kernel: alloc_kpages and free_kpages.
--   Spinlock: kern/thread/spl.c and kern/thread/spinlock.c. Level: splraise, spllower and splx;
--     Exclusion: the lock under any interleaving of processors.
--   Semaphore: P and V of kern/thread/synch.c. Wakeup: any interleaving of threads.
--   Lock: locks and condition variables of kern/thread/synch.c. Queues: the wait channels while threads
--     move; Exclusion: any interleaving of threads; Missed: the gap in cv_wait.
--   Rwlock: the readers' and writers' lock of kern/thread/synch.c. Overlap: any interleaving of threads.
--   Kmalloc: kern/vm/kmalloc.c. The page entries that are linked through next_samesize and next_all
--     are lists of indices into pagerefs; the free list of a page is in the words of memory. Chain,
--     Unlink, Pages, Bits, Entries, Linked, Fresh, Delist and PutBack: the lists, the invariant and
--     its parts; Sizes: blocktype; Sections: the two parts of subpage_kmalloc; Release:
--     subpage_kfree; Requests: kmalloc and kfree over any alloc_kpages and free_kpages.
--   Threadlist: kern/thread/threadlist.c, on a store of list nodes. Links: the links between two
--     nodes; Places and Contents: insertion and removal at any place; Ends: each operation;
--     Refinement: the sequences that the lists implement.
--   Schedule: schedule of kern/thread/thread.c on such a list. Choice: the loops; Turn: a call.
--   Libc: common/libc/string. Blocks: memcpy, memmove and bzero; Text: the string functions.
--   Sfs: kern/fs/sfs/sfs_vnode.c, the blocks of a file. Device: sfs_rwblock of kern/fs/sfs/sfs_io.c;
--     Blocks: sfs_balloc; Owned: the blocks of a file and its invariant; Answers, Indirect and
--     Mapping: sfs_bmap; Freed, Truncation, Truncated, Truncate and Cut: sfs_truncate.
--   Directory: the directories of kern/fs/sfs/sfs_vnode.c. Names: the names in the entries; Search:
--     sfs_dir_findname; Links: sfs_dir_link and sfs_dir_unlink.
--   Vfs: the operations on path names of kern/vfs/vfspath.c and the counts of kern/vfs/vnode.c, over any
--     file system. References: the counts and what a file system keeps to; Paths: the operations that
--     keep no vnode; Opening: vfs_open and vfs_close.
--   Array: kern/lib/array.c and kern/include/array.h. Resize: array_setsize; Contents: the rest.
--
-- Bounds and fuel: a machine word is a number with its wrap-around written out (2 ^ 32 for sizes and
-- addresses, 2 ^ 64 for file offsets). The loop of uiomove runs on fuel, and as many rounds as there
-- are blocks and bytes are enough; the doubling of array_setsize ends within 32 rounds, for up to
-- 2 ^ 29 elements; find_lru_page draws from a list of random numbers, and is `spin` when the list
-- ends; sfs_rwblock makes eleven attempts at most; the loops of sfs_truncate and sfs_dir_findname run
-- over the slots; the loop of schedule runs on the count of the run queue; the string functions run on fuel,
-- and one round more than there are characters is enough. The addresses in an iovec, the pointer of
-- uiomove and the addresses of Libc are not reduced modulo 2 ^ 32.
--
-- Parameters: which user addresses fault (`bad`), at which offsets the disk fails (`read_error`,
-- `write_error`), on which blocks of a file system it fails, what sfs_io answers for a slot of a
-- directory, the answers of kmalloc (outside Kmalloc), the random numbers, the pages that Kmalloc
-- gets and gives back, where a thread keeps its list node and its priority, and what a file system
-- does, with the laws that it hands a vnode out with one reference, that VOP_CLOSE keeps the counts,
-- and that VOP_RECLAIM, whether it fails or not, leaves its vnode at most one reference and keeps
-- all other counts. The content of a page is one number, and VOP_READ and VOP_WRITE of a page with
-- their uio are one access to the slot's content. rw_lock is released before the thread is put to
-- sleep in the source, but in Rwlock the test of the count and the enqueueing are one step.
-- Operations between splhigh and splx, the sections of the spinlock of a semaphore or a lock,
-- those of rw_lock and those of kmalloc_spinlock are taken as atomic.
--
-- Not modelled: user programs, device drivers, assembly, context switches and migration, of SFS the
-- buffer cache, file I/O and the vnode operations, of VFS the devices and lookups, the system calls,
-- and of common/libc strtok_r, atoi and printf. The definition of struct page_table_entry is not in
-- the repository; Entry has the fields that the code uses.
pub mod Prelude
pub mod Array
pub mod Bitmap
pub mod Copyinout
pub mod Directory
pub mod Kmalloc
pub mod Libc
pub mod Lock
pub mod Region
pub mod Rwlock
pub mod Schedule
pub mod Semaphore
pub mod Sfs
pub mod Spinlock
pub mod Threadlist
pub mod Uio
pub mod Vfs
pub mod Vm
