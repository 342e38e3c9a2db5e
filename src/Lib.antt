-- ===== src/Lib.antt =====
-- A model of OSProject, a small 64-bit kernel with a tar file system and a C library, and what is proved
-- of it.
--
-- The parts and the files that model them:
--
--   * sys/paging.c with include/sys/mem.h. Paging.Frames has the table of pages `pagelist` and its free
--     list (free, allocate_page, increfcount, getrefcount) and Paging.Frames.Boot builds it (mem_map);
--     Paging.Frames.Pool is the allocator's specification.
--     Paging.Tables has map, init_pages_for_process and getPTE, with Paging.Tables.Kmalloc for kmalloc and
--     allocate_page_for_process. Paging.Space has copytables and dealloc_pml4, Paging.Space.Boot has
--     init_ia32e_paging. A Memory holds the page table, the head of the free list and the 64-bit words of
--     physical memory by their physical address; the kernel's window onto it, at 0xffffffff80000000, is
--     subtracted from each pointer. An index from 75000 on stands for the bytes behind the table; the theorems
--     on free and increfcount are about pages of the table.
--   * include/sys/process.h, sys/process.c and sys/proc_man.c. Process has the table `q`, newPID,
--     init_proc and yield; Process.Life has exit, kill, sleep, the timer's handler (sys/timer.c) and
--     wake_process (sys/terminal.c); Process.Wait has removeProcess, wait and waitpid; Process.Fork has
--     copytask, fork and malloc. A Kernel is the table, the slot of the current process and a Memory.
--     Process.System joins these operations into one step relation on kernels.
--   * sys/idt.c: Fault has the page fault handler isr14; Syscall has the dispatch of isr128, and
--     Syscall.Stubs the calls that the stubs of libc/ make, with the numbers of include/syscall_const.h.
--   * sys/string.c and libc/string.c: Text.
--   * sys/kprintf.c and the number printers of libc/printf.c: Screen, Screen.Numbers and Screen.Format. The
--     arguments of kprintf and printf are a VaList, the words that va_arg reads, without an end.
--   * sys/tarfs.c: Tarfs has the archive and its lookup, Tarfs.Paths has setTruePath, Tarfs.Files and
--     Tarfs.Directories have open files and directories, with chdir and getcwd of sys/process.c.
--   * sys/terminal.c: Terminal has the keyboard's handler, the line buffer and read_input.
--   * create_process and execvpe of sys/process.c with include/sys/elf64.h: Exec.Command finds the program and
--     its arguments, Exec.Elf loads its segments, Exec.Stack prepares its stack, Exec.Start joins them. What
--     the loader copies into the new address space is a list of requests, since the model has no bytes of
--     user memory; the archive's bytes are a parameter.
--   * sys/idt.c, the table itself: Devices.Interrupts. The addresses of the handlers in sys/idt.s are a
--     parameter.
--   * sys/ahci.c: Devices.Disk. What the controller answers to each reading of a register is a parameter,
--     and the command that is built for it is part of the result.
--   * sys/ide.c: Devices.Ide. Every access to a port is an Event; what a drive answers, the bytes of its blocks
--     and its interrupts are a parameter, Drives, a function of the events so far. Access has
--     ide_ata_access and the two operations on sectors, Setup has ide_initialize and ide_atapi_read; Address
--     has what a drive takes from its registers.
--   * libc/printf.c: Printf has string_split and printf, over what the stack held in their arrays, and print_int
--     and print_hex, over what it held in front of and behind theirs in each call. The digits are those of
--     Screen.Numbers.
--   * sys/gdt.c: Devices.Gdt. Devices.Exceptions has the handlers of idt.c for exceptions.
--   * bin/echo, bin/sleep, bin/kill, bin/cat and bin/ls: Programs, the calls that each makes, with the
--     kernel's answers as a parameter.
--   * sys/keyboard.c: Terminal.Handler, a handler that nothing calls.
--   * sys/pci.c: Devices.Pci, with the registers of the configuration space and the memory of a disk
--     controller as parameters; probe_port of sys/ahci.c is there too.
--   * bin/sbush/sbush.c: Shell has setStringTokens, parseInput, execCommand and setvar; what the shell then asks
--     of the system is an Action. Shell.Script has main: the lines of a script and the rounds at the prompt.
--   * libc/malloc.c: Heap has malloc, free and morecore. The kernel's part, which adds whole pages behind the
--     heap, is that of malloc in sys/process.c.
--   * libc/env.c: Environment has getvar, setenv, getenv and pushenvs.
--
-- How code becomes definitions. An operation that changes state takes the state and returns Option of a
-- result and the next state. `none` stands for a kernel that does not come back: an endless loop, an
-- access through NULL, or a write past an object of known size. A function that calls yield is split
-- there: the part up to the call (wait_enter, waitpid_enter, timer_enter, read_round) and the part after
-- it (wait_resume, waitpid_resume, timer_leave), since other processes run in between. A C text is the list
-- of the bytes from the pointer to the end of its object. Unsigned arithmetic keeps its `% 2 ^ w`.
--
-- Fuel. find_next has fuel for each slot of the table, and the theorem on yield shows that this is
-- enough. init_loop has fuel for as many headers as 512-byte steps fit the archive, which the theorem on
-- init_tarfs shows to be enough for sizes below 2^32 - 512. mem_map_loop has a round for each page of its region, map_all one for each
-- page between its bounds, and binary_loop eleven, one more than an int has digits. map_pages of
-- Exec.Elf has one round more than the pages of its segment. The first wait of readorwrite has the bound of
-- the source as its fuel; the second, which the source does not bound, takes its fuel as an argument, and the
-- theorem on it says how much is enough. So do the waits of ide.c, and the loops of malloc and free, which go round a ring.
--
-- The loop of setTruePath runs over the bytes of its array, and find_from over the 32 headers that the
-- source looks at.
--
-- Not modelled: the digits of the clock on the screen; the switch of stacks and registers (assembly); the
-- flush of the TLB; port input and output; what the shell reads and prints; the programs ps and fc; the boot
-- loader's list of modules in main.c; the commented-out code of sys/dir.c.
pub mod Prelude
pub mod Paging
pub mod Text
pub mod Process
pub mod Fault
pub mod Exec
pub mod Devices
pub mod Shell
pub mod Heap
pub mod Environment
pub mod Screen
pub mod Tarfs
pub mod Terminal
pub mod Syscall
pub mod Printf
pub mod Programs
pub mod Examples
