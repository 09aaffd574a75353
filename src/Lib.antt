-- ===== src/Lib.antt =====
-- AuroraOS is a kernel in C (kernel/), with its boot code, ports and user programs around it. This
-- library models parts of the kernel that carry logic of their own, and proves what makes them right.
--
-- How the parts meet: a system call first passes the filter of its task (seccomp), and then works on a
-- descriptor. A descriptor has rights (capability) and may lead to a pipe, whose ring is filled and
-- emptied with memcpy (string). Input devices put events into one queue (hid_event), from which user
-- programs read. The TCP code asks tcp_cong how much it may send and how long it waits. The scheduler
-- keeps its tasks in a tree by their run time (rbtree), and every part takes its memory from blocks of
-- pages (mem). On the way back to user space a task gets its pending signals (signal), and a signal
-- makes a task that is blocked in a pipe ready again. File systems write their metadata through a
-- journal on the same device (journal), which recovery reads after a crash. At boot the kernel looks
-- for words in its command line (cmdline).
--
-- The files, and the code that each is about:
--   Kstring     kernel/string.c: memcpy, with its path of eight bytes at a time.
--   Hid         kernel/hid_event.c and kernel/include/hid_event.h: the event queue; a record of the
--               three static variables, with one function per C function. Hid/Queue refines it to a list.
--   Seccomp     kernel/seccomp.c and kernel/seccomp.h: installation and check of a filter. Seccomp/Bpf
--               is the interpreter seccomp_run_bpf; Bpf/Decode reads instruction words. The children
--               Termination, Safety, Deny and Registers are named for what they are about; Policy is
--               about whole calls, and Layout about the bytes of seccomp_data.
--   TcpCong     kernel/net/tcp_cong.c: the state of one socket; TcpCong/Table has the sixteen slots and
--               the functions of the interface. Bounds, Growth, Recovery and Table/Slots are about them.
--   Pipe        kernel/pipe.c: the ring, the linked lists of blocked tasks, and every section under the
--               ring's lock. Contents and Fifo follow the bytes; Closing and Cycle are about closing an
--               end, and about a reader that is woken by a signal; Pipe/Create is sys_pipe.
--   Sched       kernel/sched.h: the states of a task, which Pipe, Capability and Signal share.
--   Capability  kernel/capability.c and kernel/capability.h, with the reference counts of kernel/vfs.c:
--               Alloc is about cap_fd_alloc, Rights about what a process can come by, and Transfer about
--               fd_send.
--   File        kernel/file.c: allocation, lookup and close of plain descriptors, in the same table.
--   Cmdline     kernel/cmdline.c: storing a line, and the scan for words. Words reads the line in another way.
--   RbTree      kernel/rbtree.c and kernel/rbtree.h: the tree of the scheduler. A node is a subtree with the
--               path above it. Contents, Order, Find, Balance and Insert are about insertion and
--               search, Depth about the length of the walks; RbTree/Erase is rb_erase, with children.
--   Buddy       kernel/mem.c and kernel/mem.h: the page allocator. The page array is a function of
--               the frame number, a free list the list of its frames. Buddy/Boot is phys_mem_init; Split,
--               Merge, Coalesce, Search, Alloc and Give are about the steps of alloc_pages and free_pages,
--               Cover and Valid about the free lists, and Owners about whole histories of calls.
--   Signal      kernel/signal.c and kernel/signal.h: check_signals and do_sys_sigreturn, with the user's
--               memory as a function from addresses to signal frames. Handler and Return are about a call
--               of a handler and the return from it; Signal/Send has the other calls.
--   Journal     kernel/journal.c and kernel/journal.h, on the read and the write of kernel/block_dev.c:
--               Disk has the blocks and the device, Recover journal_recover and journal_init, Inspect the
--               functions that only look. Order and Ahead are about the order of the writes, with Place
--               about the pointers; Log, Logged and Durable about a transaction on its way to the journal
--               and to its place; Redo and Recovery about its replay; Room about its size, and Start
--               about journal_init.
--   Tmpfs       kernel/tmpfs.c: files with their pages; Tmpfs/Directory has the directories. Bytes, Stores,
--               Rounds and Fill follow single bytes through the loops, and Overwrite has the writes; Directory/Names
--               and Directory/Reach are about names and links, and about histories of calls.
--   Circular    circular arrays, for Hid and Pipe; Circular/Copy is about copies in two runs.
--   Prelude     names of the libraries, tests on numbers, lists as arrays, and bits.
-- The files called Tests run the definitions on small inputs.
--
-- How the code is read: a machine word is a natural number, and the wrap at its width is written out.
-- An array is a list; a read out of it gives a default, and where that would matter (the loads of the
-- interpreter) an outcome of its own. A function that changes an object takes the object and returns
-- it. What runs under one lock is one step. A failed call is `none` or a value of its own. Memory that
-- kmalloc may or may not give (in kernel/journal.c and kernel/tmpfs.c all that a call asks for, or
-- nothing), and the answer of user_addr_range_ok, are Boolean arguments. Log output is left out
-- everywhere.
--
-- Loops without a bound in the code run on fuel, and say `none` when it is used up. The interpreter of
-- seccomp needs one round more than the program has instructions, if its jumps go forward. The loops
-- over the lists of a pipe need as much fuel as the list has nodes. The scan of the command line needs
-- no more rounds than the line has characters. The repair after an erasure needs two rounds more than
-- the place of the missing black node is deep. buddy_merge calls itself at most ten times, once for
-- each larger order, and a split or a search of alloc_pages goes over the orders between two given
-- ones. The scan of a recovery needs no more rounds than there are blocks between tail and head, and
-- the tail of the journal no more than the head is far, since both move by one block at least. The
-- loops of tmpfs over pages need no more rounds than they move bytes.
--
-- Not modelled: hardware (drivers, page tables, interrupts, the boot code), the file systems on disks,
-- the paths and caches of kernel/vfs.c, the network protocols above the congestion control, and the
-- glue between the parts (system call dispatch, start-up, the shell). Their effect is on devices, or
-- they call what is modelled. Of the kernel's core the scheduler, the slab heap on top of the page
-- allocator, the walk of buddy_coalesce_all, whose merges are modelled, and duplicating the
-- descriptors of kernel/file.c are left for later. Of kernel/seccomp.c the second, one-argument
-- seccomp_set_filter is left out, since C refuses two functions of one name; of kernel/capability.c
-- the stubs that always answer 1; of kernel/journal.c the two self tests; of kernel/pipe.c what a
-- freed ring's memory becomes.
pub mod Prelude
pub mod Kstring
pub mod Circular
pub mod Hid
pub mod Seccomp
pub mod TcpCong
pub mod Pipe
pub mod Sched
pub mod Capability
pub mod Cmdline
pub mod File
pub mod RbTree
pub mod Buddy
pub mod Signal
pub mod Journal
pub mod Tmpfs
