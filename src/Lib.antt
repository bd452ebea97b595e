-- ===== src/Lib.antt =====
-- CometOS: a verification library for the kernel and its C library.
--
-- The program is a small i386 kernel. `kernel/arch/i386/mem` gives out frames and pages by a
-- bitmap (`kernel/kernel/array.c`); the interrupt entry calls `interrupt_handler`, which runs what
-- the drivers installed and acknowledges the controllers; the console writes to the text screen;
-- all of them use the functions of `libc`.
--
-- Which file models what:
--   Base: numbers, tests, lists, laws of `|`, and the ports of `kernel/include/kernel/portio.h`.
--   Bitmap, Kmalloc: `kernel/kernel/array.c` (bitmap_*), the allocation calls of
--     `kernel/arch/i386/mem/paging.c`.
--   Frames, Paging: the frames and the page tables of `kernel/arch/i386/mem/paging.c`.
--   Heap: `kernel/arch/i386/mem/heap.c` on the page tables of Paging.
--   Libc: `libc/string`, `libc/stdlib/find.c` and `libc/stdio`.
--   Log: `kernel/kernel/ui/log.c`.
--   Descriptors: `kernel/arch/i386/gdt.c` and `kernel/arch/i386/irq/idt.c`.
--   Timer, Clock: `kernel/arch/i386/pit.c` and `kernel/arch/i386/time.c`.
--   Terminal: `kernel/kernel/ui/tty.c` and `kernel/include/kernel/vga.h`.
--   Keyboard: `kernel/kernel/kb.c` and `kernel/include/kernel/kbdus.h`.
--   Interrupts: `kernel/arch/i386/irq/interrupt.c` and `kernel/arch/i386/pic.c`.
--   Dma, Floppy: `kernel/arch/i386/dma.c` and `kernel/arch/i386/fdc.c`, with the constants of their
--     headers (Ports).
--   Ext2: `kernel/kernel/fs/ext2.c` over a byte image, and the packed structures of
--     `kernel/include/kernel/fs/ext2.h`.
--   Initrd: `kernel/kernel/fs/initrd.c` over Ext2, and behind Vfs with the allocator (Mount).
--   Vfs: the dispatch of `kernel/kernel/fs/vfs.c`; the operations of a node are a parameter.
--   Arrays: the linked list and the tree of `kernel/kernel/array.c`.
--   Console: what `page_fault`, `isr_handler` and `log_print` show, by Libc.Stdio on Terminal.
--   Entry: `kernel_main` of `kernel/kernel/kernel.c` over all of these, `paging_initialize`, and the
--     modules of `kernel/include/kernel/multiboot.h`.
--
-- Functions keep their names, less a prefix that the module says. A C function that changes state
-- takes the state and returns the new one. Words are native numbers, with `% 2 ^ w` where C wraps.
-- A loop without a bound takes fuel and returns an option, `none` for the want of it; the bitmap
-- search takes `size + 2` rounds, the string functions any fuel above the strings' lengths,
-- `ext2_read` a round for each block it reads, so more than the bytes asked for is always enough,
-- and `printf` one round more than its format has bytes.
-- Where a loop waits for a device or an interrupt, the fuel is what comes until it is answered.
--
-- Not modelled: liballoc, a third-party library whose calls are a parameter of Kmalloc; what the
-- devices answer, which is a parameter of the bus, and how long `sleep` of the floppy's motor waits;
-- the translation buffer of the processor; how the console output of `kernel_main` and its trial read
-- interleave with its other effects (both are modelled by themselves); what a store does to another
-- part's memory where they overlap, as a read's buffer and a `file_t`, or a keyboard buffer and the
-- screen; `kernel/arch/i386/gui/draw.c`, which is no part of the build; the boot code and the task
-- switch.
pub mod Base
pub mod Bitmap
pub mod Kmalloc
pub mod Frames
pub mod Paging
pub mod Libc
pub mod Terminal
pub mod Interrupts
pub mod Dma
pub mod Floppy
pub mod Ext2
pub mod Arrays
pub mod Vfs
pub mod Log
pub mod Descriptors
pub mod Timer
pub mod Clock
pub mod Keyboard
pub mod Initrd
pub mod Heap
pub mod Entry
pub mod Console
