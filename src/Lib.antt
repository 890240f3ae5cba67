-- ===== src/Lib.antt =====
-- The PZOS kernel: its locks, page allocator, page tables, slab allocator, virtual memory areas,
-- keyboard driver, terminal and shell, and the memory, string and output functions of its libc.
--
-- The kernel is one program for x86-64. Its parts call each other directly and keep their state in
-- static variables, each behind a spinlock. Spinlock models the lock itself, step by step; in the
-- other modules an operation is one function from state to state.
--
-- Base        the shared helpers: Boolean tests on numbers (Tests), lists with the numbers that the
--             arithmetic tactics read (Lists), bits of a word (Bits), C integers (Int)
-- Spinlock    kernel/include/kernel/spinlock.h: the steps of spin_acquire and spin_release as a
--             relation, and the functions of the rwlock as steps of processors (ReadWrite)
-- Mman        kernel/arch/x86_64/mman.c, alloc_page, free_page, alloc_aligned, alloc_contig and
--             free_contig. Memory from `bitmap` on is one function from word numbers to 64-bit words,
--             since the code reads the page stack behind the bitmap through `bitmap`. _bslr_u64 of
--             kernel/arch/x86_64/intrin.h is `bsr`. Startup is what mman_init makes of the memory map
-- Slab        kernel/src/slab.c and kernel/src/kmalloc.c, on pages of Mman's alloc_page: slab_create,
--             slab_alloc, slab_zalloc, slab_free2, slab_free, and in Kmalloc kmalloc_init, kmalloc and
--             kfree. Memory is a function from addresses to 64-bit words; vmalloc and vfree are a record
--             of operations that Kmalloc takes
-- Vmem        kernel/src/vmem.c: the nodes of the list are in a store by their addresses, with the free
--             list; alloc_vma, free_vma, create_vma, destroy_vma, vmalloc_at, vmalloc and vfree. The
--             functions of kernel/arch/x86_64/paging.c that vfree calls are a record of operations
-- Paging      kernel/arch/x86_64/paging.c and paging.h: the four levels of tables in memory, as a function
--             from addresses to 64-bit words, with the counts of the pages; is_mapped, map_page, unmap_page,
--             early_map (Early) and page_fault_handler (Fault), which takes its area from the list of Vmem.
--             Pages come from Mman's alloc_page and go back by its free_page
-- Acpi        kernel/arch/x86_64/acpi.c: the search for the root pointer, by which acpi_init finds the root
--             table (Root), and acpi_get_table (First), on memory as bytes
-- Pci         kernel/arch/x86_64/pci.c: the walk of the buses (Walking) and pci_register_driver (Drivers).
--             Devices, buses and drivers are in stores by their addresses; kmalloc and the attach function
--             of a driver are parameters
-- Kbd         kernel/src/kbd.c, kbd_isr, kbd_read, kbd_is_down and kbd_write, with the tables (Tables)
--             and the codes of kernel/include/kernel/kbd.h. A byte given to ps2_send_kbd is part of a
--             result
-- Printf      libc/stdio/printf.c, vprintf as it is built for the kernel. Spec reads a conversion
--             specification, Number lays out a number, Format holds the loop
-- Memory      libc/string/mem.c, on memory as a function from addresses to bytes
-- Strings     libc/string/str.c, on the same memory
-- Tty         kernel/src/tty.c: the cursor and the scrolling, the parser of escape sequences (Escape),
--             the commands, the colours and their blending, tty_putchar, tty_write and tty_puts. The frame
--             buffer is a function from coordinates to cells
-- Shell       kernel/src/main.c: the edits of the line, by the memmove and memcpy of Memory, and in
--             Session the loop of kmain on a keystroke of Kbd, with eval and the history. What it sends to
--             the terminal is a list
--
-- Loops over an array are structural recursion on the number of rounds. alloc_aligned steps by the
-- alignment modulo 2 ^ 64 and has fuel of one round for each page of low memory and two more; it
-- stops within that for each alignment from 1 to 2 ^ 63. vprintf has a round for each character of
-- its format and one more, and never needs more. memcpy and memmove have as many rounds as bytes,
-- and the loop that links the objects of a page has one for each byte of it. A function on strings
-- takes its fuel, which is enough if it is above the length of each string. A loop over the list
-- of areas or of PCI devices takes fuel too, enough if it is above the length of the list; the walk of
-- the buses counts nested calls, and 513 are enough where each bridge leads to a bus of a higher number. The loop that produces
-- digits has 64 rounds, enough for 64 bits. The parser of escape sequences and the loops of tty_write
-- and tty_puts take fuel as the strings do, and a sequence is at most the 64 bytes of escapebuf; the loops over
-- rows and columns of the screen have one round for each.
--
-- Not modelled: the start-up code, which fills these states from what the boot loader and the devices
-- say (the page tables of mman_init, vmem_init, tty_init beyond its palette, kbd_init, init.c), the TLB and the log, and
-- the drivers that only move bytes between ports, mapped registers and memory. Each operation of a
-- component is one step, since it holds its lock; where the code takes the lock twice, the model says
-- so. A signed overflow of an int in vprintf is not modelled.
pub mod Base
pub mod Spinlock
pub mod Mman
pub mod Slab
pub mod Vmem
pub mod Kbd
pub mod Printf
pub mod Memory
pub mod Strings
pub mod Acpi
pub mod Paging
pub mod Pci
pub mod Shell
pub mod Tty
