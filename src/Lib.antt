-- ===== src/Lib.antt =====
-- Dionnex kernel: the parts of the kernel that keep state or compute, as executable definitions,
-- with theorems about them.
--
-- The kernel is a C program for 32-bit x86. Memory is handed out in pages by mm/pmm.c and in
-- blocks by mm/heap.c, which takes its pages from the former. sched/task.c and sched/scheduler.c
-- keep the tasks, whose records and stacks are pages too, and choose the next one to run.
-- drivers/keyboard.c is filled by an interrupt and read by the shell through a ring; kernel/klog.c
-- keeps the kernel's messages in another ring. kernel/string.c serves all of them.
--
-- Strings models kernel/string.c: Strings.Memory the functions on ranges of bytes, Strings.Text
-- those on strings, Strings.Tokens strtok, Strings.Number the conversions. An object is the list
-- of its bytes; an access outside it is a fault, none. Klog models the ring of kernel/klog.c
-- (klog_push_char, klog_push_string, klog_init, klog_dump, klog_get_count, klog_read_bytes) and
-- Klog.Format its formatter klog, Keyboard all of drivers/keyboard.c but the registration of its
-- handler. Pmm models mm/pmm.c: the bitmap as its list of words, and every operation as a function
-- of the four static variables; Pmm.Boot is pmm_init, with the boot loader's memory map as a list
-- of entries. Vmm models mm/vmm.c over the words of the memory by address. Vga models the buffer
-- and the cursor of drivers/vga.c, Printk the formatter kernel/printk.c as the list of the
-- characters it prints. Heap models mm/heap.c: the chain of headers is a list with addresses, next
-- is the neighbour in the list, kernel_panic and a pointer that is not to a block are results.
-- Ramfs models the file table of fs/ramfs.c, and Ramfs.Nodes the node operations that the virtual
-- file system calls. Process models the list of processes of kernel/process.c and the queue of
-- kernel/scheduler_process.c, which share one link: processes by address, NULL as 0. Modules
-- models the registry of kernel/module.c, Timer kernel/timer.c. Rtc models drivers/rtc.c: what the
-- ports give is an argument, the readings as a list. Sched models sched/scheduler.c and
-- sched/task.c: a store of tasks by address, the list as the sequence of addresses, and
-- context_switch as a result that says from which task to which. Base has what they share: Boolean
-- tests, lists with native indices, the bits of a word, rings.
--
-- Vfs models fs/vfs.c: the tree of nodes by address, the walk along a path and vfs_mount, and
-- Vfs.Calls the calls that go through the table of operations of a node, of which only those of
-- the root are in the file; the walk along a path has fuel for 256 names, of which 255 characters
-- hold 128, and the walk along the children of a directory has its fuel as a parameter. Object and
-- Loader model kernel/module_loader.c over Machine, the memory by bytes: Object the loops over the
-- sections, symbols and relocations of an object file, each with as many rounds as the file says,
-- Loader the list of the loaded modules.
--
-- Syscall models kernel/syscall.c: calls that work on the screen, the keyboard, the processes and
-- the pages, over the models of these, and the handler over any table of calls.
--
-- Elf models kernel/elf_loader.c over the memory by bytes, the tables and the allocator, and
-- Elf.Create the process_create of kernel/process.c, which loads a program and puts its process
-- into the list.
--
-- A number of the code is a natural number below 2^32 with its wrap-around written out; a signed
-- result is an integer. The overflow of the int in atoi, which C does not define, is a fault,
-- none. Where the code loops up to a bound, the definition recurs on the rounds that are left, and
-- starts with the bound the code has (the 32 bits of a word, the words of the bitmap, the pages of
-- a request); utoa and itoa have 34 rounds for the digits and for the swaps, which is more than
-- the 33 places that 32 binary digits and a sign take; printk has 35 for the digits. The walks
-- along next in Process have fuel as an argument; one round more than the processes of the list is
-- enough, and a list that does not end uses up any. So has the waiting loop of Timer, for which
-- one round more than the ticks to wait is enough. Those of Vfs are given above. Everything else
-- recurs on a list, or on the number of rounds that the code has. No definition has another fuel.
--
-- Not modelled: the contents of the heap's blocks, which the operations only copy or clear; ports
-- and interrupts, the control registers among them; the assembly files; the other file systems,
-- the system calls that the first lines of Syscall.antt leave out, and the other drivers; vfs_list
-- and module_list_loaded, which only print.
pub mod Base
pub mod Strings
pub mod Klog
pub mod Keyboard
mod Tests
pub mod Pmm
pub mod Vmm
pub mod Vga
pub mod Printk
pub mod Process
pub mod Modules
pub mod Timer
pub mod Vfs
pub mod Machine
pub mod Object
pub mod Loader
pub mod Syscall
pub mod Elf
pub mod Heap
pub mod Sched
pub mod Rtc
pub mod Ramfs
