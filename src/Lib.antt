-- ===== src/Lib.antt =====
-- PebPeb OS, a small x86 kernel with a paravirtualising hypervisor: a model of parts of its kernel
-- (kern/) and the theorems that make them correct.
--
-- The kernel schedules threads, gives processes virtual memory out of the machine's user pages,
-- serves consoles and the keyboard, and runs guest kernels at ring 3 with shadow page tables. The
-- parts modelled are the allocator of physical pages, the scheduler with its mutexes and condition
-- variables, the memory of a process, the interrupts, hypercalls and shadow page tables of guests,
-- the containers of the scheduler and of the timer, the reads and writes of user memory, the
-- output of a console, and the lines read from its keyboard. They meet as in the code: page tables
-- and regions of memory take their pages from the allocator, whose free runs stand in circular
-- queues; a tick of the timer takes threads out of a heap that is a vector; the console prints
-- what is read from user memory, and a line that was typed is echoed by the console and copied to
-- user memory; a hypercall reads its arguments from the guest's stack and calls the console.
--
-- Which file is about which part:
--   Paging     kern/inc/paging.h: make_pte, make_pde and the reads of an entry and an address
--   Pv         kern/pv.c and kern/hvcall.c. Pv.Shadow has the entries that translate_pv_pd and
--              hvcall_adjustpg write. Pv.Vidt and Pv.Vm are the state of a guest, `pv_t` with the
--              saved registers and the memory around it; Pv.Interrupt has pv_inject_interrupt,
--              pv_handle_fault, pv_inject_irq, pv_check_pending_irq and pv_handle_syscall;
--              Pv.Hvcall the hypercalls but setpd and adjustpg, their dispatch in
--              sys_hvcall_real, and pv_select_pd; Pv.Steps is what can happen to a guest: it runs,
--              enters the kernel and returns, or a key or an interrupt comes
--   Queue      kern/common.c: queue_insert_head to queue_detach, against the list of nodes
--   Mm         kern/mm.c: mm_init, alloc_user_pages, free_user_pages and all they call; the state
--              `Mm` is the bitmap, the bins, and what stands in the free pages. Mm.Page has the
--              bitmap and the numbers, Mm.Bin the bins as queues, Mm.Blocks the division of memory
--              into blocks, Mm.Bins the bins against it, Mm.Tiles the marks and sizes, Mm.Take and
--              Mm.Search the parts of an allocation, Mm.Merge the parts of a free
--   Vector     kern/common.c: vector_init to vector_remove, against the list of elements
--   Timer      kern/common.c: heap_init to heap_pop; kern/timer.c: check_timers; the heap part of
--              sys_sleep_real in kern/syscall_process.c
--   Usermem    kern/usermem.c: copy_from_user, copy_to_user, copy_string_from_user
--   Console    kern/pts.c: pts_putbyte to pts_print_at; print_buf_from_user of kern/usermem.c
--   Keyboard   kern/pts.c: the rings that kbd_handler_real, sc_process and do_readline use,
--              do_readline and flush_line
--   Sched      kern/sched.c (select_next to save_and_setup_env), kern/sync.c, and of kern/timer.c,
--              kern/syscall_thread.c and kern/syscall_process.c what moves threads between the queues.
--              The state `Kernel` has the ready queue, the mutexes and condition variables and the
--              status of each thread; Sched.Run has the order of the operations as a list of steps;
--              Sched.Seats to Sched.Yield say which thread stands in which queue after one step,
--              Sched.Order after any, and Sched.Exclusion and Sched.Turns are about a mutex
--   Space      kern/sched.c: add_region and find_or_create_pt; kern/syscall_memory.c: new_pages and
--              remove_pages; kern/interrupt.c: handle_zfod. The state `Space` has the regions and
--              page tables of a process, and the allocator, which is a parameter
--   Base       what they share: tests, lists, bitwise operations, signed integers
--
-- Words are native numbers. A 32-bit word wraps where the source lets it wrap; a count of pages or of
-- elements is an int that stays far below 2 ^ 31, and is a number. Memory that the code reads through
-- pointers is a function of addresses or of indices, with NULL as 0. Bits of C are masked and shifted
-- as in the source, and Base.Bits says what that is in numbers.
--
-- Loops: a loop over an index is recursion on the rounds left. The search of a bin has as fuel the
-- number of user pages, which is enough since a bin has no more chunks than memory has pages; running
-- out would be the result `none`, which the theorem on alloc_user_pages excludes. The loops of the
-- heap have as fuel the number of nodes, and so has check_timers; the loops over a ring of characters
-- have as fuel its 4096 cells; the theorems hold with that fuel.
--
-- Parameters: what kern/usermem_asm.S and the page fault handler find in user memory (`UserMem`);
-- which requests malloc, realloc and smalloc grant, and what stands in new memory (`alloc`,
-- `Smalloc`, `grows`); in Space the allocator of pages. In Pv.Hvcall.Dispatch hvcall_setpd and
-- hvcall_adjustpg are arguments of the dispatch, and Pv.Steps leaves out the calls of them.
--
-- Not modelled: spinlocks, the mutex `threads_lock` around the lookup of a thread, and the interrupt
-- flag, so every operation is one step; more than one processor; the stacks of threads, so that a call which switches away ends at the switch, and
-- what it does later is a step of its own; the mapping window of map_phys_page, since a free page
-- is addressed as such; assembly, devices, and code of other projects (410kern, 410user,
-- 410guests). Of kern/ also fork, exec, wait, vanish and the other system calls on processes, page
-- directories but for the entries of regions, the queue of readers of a keyboard, and red-black
-- trees. Of a guest, memory is what each of its page directories shows, and a write through one
-- changes the others in a way that is a field of the state (`shown`), since the pages behind them
-- are not modelled. What a page table held stays in the state after it was freed, and the reference
-- count of a page table is an integer without bounds.
pub mod Base
pub mod Console
pub mod Keyboard
pub mod Mm
pub mod Paging
pub mod Pv
pub mod Queue
pub mod Sched
pub mod Space
pub mod Timer
pub mod Usermem
pub mod Vector
