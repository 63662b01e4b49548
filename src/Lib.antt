-- ===== src/Lib.antt =====
-- NowOS, a small x86-32 kernel in C: its core libraries and managers, translated function by
-- function, with the theorems that make them correct.
--
-- The parts, and the files that model them:
--   * Base: list, option and number helpers that the parts share, the macros of include/kdef.h
--     (Base/Kdef), bits of words (Base/Words), and `Run`, the outcome of code that can halt the
--     kernel. `ok` returns, `panic` is PANIC or a failed ASSERT, and `out_of_fuel` is a loop that used
--     up the rounds of its model.
--   * CString: klib/string.c. Memory is a function from address to byte.
--   * CircBuf: klib/circ_buf.c, a ring of entries in memory, copied in and out by `memcpy`.
--   * SortedArrayList: klib/sorted_array_list.c, a sorted array with binary search.
--   * ByteIndexList: klib/byte_index_list.c, a bitmap of slots, eight to a byte.
--   * PhysMem: kernel/mm.c, physical pages handed out by such a bitmap, and `mem_alloc_region`
--     (PhysMem/Region), which marks pages there and maps them by Paging. The bitmap stands before the
--     page tables in the early heap: a bit behind its last byte is one of their memory.
--   * PageHeap: the page heap of kernel/kheap.c, by another such bitmap.
--   * LinkedList: klib/linked_list.c, a doubly linked list whose nodes come from a pool. The pool is
--     an interface, the record `NodePool`, with what the list relies on of klib/shared_pool.c, and
--     SharedPool/Nodes fills it.
--   * SharedPool: klib/shared_pool.c, objects of one size behind a bit map. A call that runs alone is
--     in SharedPool and its first child modules. In SharedPool/Race any number of threads take turns,
--     at most one access to the bit map at a time.
--   * Scheduler: kernel/scheduler.c and kernel/thread.c, the ready list, thread creation and the two
--     ways to switch threads, with what C code sees of arch/thread_switch.s. The ready list is that
--     of LinkedList, over any pool. Scheduler/Reach composes the switches of a processor.
--   * Paging: kernel/paging.c and the early heap of kernel/kheap.c. Memory is a function from address
--     to word, and the specification is the processor's walk from the page directory to a page.
--   * Ioapic and Lapic: arch/apic.c and kernel/timer.c, the interrupt controllers of the machine and
--     of each processor. The device is a parameter, and a call is the list of its writes.
--   * Lock: kernel/lock.c, the spin lock, as a step relation over the turns of any number of threads.
--   * Kprint: kernel/kprint.c, number conversion and formats, as the calls of kernel/tty.c they make.
--   * Terminal: kernel/tty.c, the text screen, its cursor and scrolling.
--   * Kheap: the block allocator of kernel/kheap.c, `kmalloc` and `kfree`. Memory is a function from
--     address to the header there, and the list of free blocks is that of SortedArrayList. A heap in
--     order (Kheap/Blocks) is a row of blocks that stand behind one another.
--   * Interrupt: arch/irq_handle.c, the handlers and their choice by vector, as lists of effects.
--   * Idt: arch/idt.c, the table of interrupt gates.
--   * Pic: arch/pic.c and arch/pit.c, the interrupt controllers and the timer chip. A device is a
--     parameter, what a read of a port gives after the writes so far.
--
-- A function of the source keeps its name. State that the source changes through a pointer goes in
-- and comes out as a record with the fields of the struct. A number is a natural number, and a sum
-- or difference that can wrap on 32 bits is written with `u32` (a difference `a - b` as
-- `u32 (a + 2 ^ 32 - b)`). The return code -1 is `negsuc 0`, other codes are `pos n`, a null
-- pointer is 0 where it is an address and `none` where a function tests its argument for it.
--
-- Loops: a `for` loop with a known number of rounds is recursion on that number. The binary
-- searches of SortedArrayList get `curr_size + 1` rounds, and each round shrinks the window, so
-- they do not run out in a valid list. `update_free_ptr` of ByteIndexList gets the bytes left up to
-- the end of the table and halts there, as the source does. `strlen` and `strcmp` get any number of
-- rounds above the length of the string; `linked_list_search` and `linked_list_destroy` get any
-- number above the length of the list. `kmalloc` grows its count of bytes in rounds of 4096, and
-- gets two more rounds than fit in the size. `check_kheap_integrity` gets any number above that of
-- the blocks, and the `%s` of `kprint` any number above the length of the text. `convert` gets the
-- 49 rounds that its buffer has room for. The search of the pool gets a round for each word of the
-- bit map. The wait for an interrupt to be sent gets any number of rounds above the reads that find
-- the local APIC busy. The page loops get the number of their pages.
--
-- Not modelled: the taking of locks inside the parts other than Lock and Scheduler (each call runs
-- under its lock, or the source leaves the lock alone), the messages that they print, `klog`, the
-- release of the memory of a whole structure by `kfree`, the rest of `scheduler_init` and the loops
-- that idle and test threads run, the loads at the end of `thread_switch_sync`, the tables of
-- kernel/acpi.c (the addresses and overrides they give are arguments), the descriptor tables and
-- the start of other processors, the remaining functions of arch/pit.c, the assembly, and the start
-- of the kernel.
pub mod Base
pub mod CString
pub mod CircBuf
pub mod SortedArrayList
pub mod ByteIndexList
pub mod PhysMem
pub mod PageHeap
pub mod LinkedList
pub mod Lock
pub mod Kprint
pub mod Terminal
pub mod Kheap
pub mod Interrupt
pub mod Idt
pub mod Pic
pub mod SharedPool
pub mod Scheduler
pub mod Ioapic
pub mod Lapic
pub mod Paging
