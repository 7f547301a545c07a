-- ===== src/Lib.antt =====
-- Raincloud is a small kernel for x86-64 in C. This library models the parts that carry its logic
-- and proves what makes them correct.
--
-- Parts and files:
--
-- - mm/malloc.c, the kernel heap: Mm/Heap.antt. `mm_list` is the list of block headers in order of
--   address; __malloc, __free, __merge_block, malloc, free, the consistency check and malloc_init
--   are the functions of these names. Mm/Heap/Invariant says what a valid heap is, Merge, Malloc
--   and Free what each operation does to it, and Live follows the blocks in use.
-- - arch/x86/paging.c, the physical pages: Mm/Pages.antt, with __page_alloc, __page_merge,
--   __page_free, page_alloc_init and the consistency check. Mm/Pages/Cover counts how often the
--   free blocks hold a page; Alloc, Free and Init are stated by it.
-- - arch/x86/paging.c, the page tables: Paging.antt, with __do_mapping, __map_by_pages,
--   __query_mapping, __validate_mapping and modify_chunk_mapping over the 64-bit words of memory.
--   A `Pager` has what this file and arch/x86/init/init_mm_map.c do differently: Paging/Kernel
--   takes the pages of tables from page_alloc, Paging/Boot from behind the stack. Shape says when
--   tables make a tree, Enter follows one level of a mapping, Walk the translation, Map one page,
--   Chunk a run of pages and Chain several runs; Boot/Runs and Boot/Start are about init_mm_map.
-- - mm/vm_map.c: Paging/VmMap.antt, the list of a process's entries, and VmMap/Dup, the copy of it;
--   Dup/Whole is about vm_map_dup.
-- - lib/queue.c: Proc/Queue.antt, a list of contents and the counter, as the scheduler uses it;
--   Nodes has the same operations on the links of list.h.
-- - proc/sched.c and proc/exit.c: Proc/Sched.antt. Threads and processes are behind their places,
--   as behind pointers; sched takes threads from the queue and maps the memory of
--   their processes with vm_map_do_mapping, and exit ends with sched. Rotate is
--   about one call of sched, Fair about many, Exit about exit.
-- - proc/id.c and the descriptors of proc/proc.c: Proc/Ids.antt; the tables are lists.
-- - proc/thread.c, proc/proc.c and proc/fork.c: Proc/Create.antt, with thread_init, thread_dup,
--   proc_init and fork over a `World`, the scheduler's objects with contexts, descriptors and
--   identifiers. Fork is about the child, Runs about when it runs, Selectors about the segments of a
--   new thread.
-- - arch/x86/init/init_dsc_tables.c, arch/x86/segments.h and arch/x86/int_ctl.c: Arch/Segments.antt
--   and Arch/Gates.antt, the descriptors as words of memory and as the processor reads them;
--   Gates/Handlers and Gates/Removed are about the gates that are set and removed.
-- - arch/x86/context.c: Arch/Context.antt; Loops and Switch say what is saved and loaded.
-- - fs/fs_special.c, the pipe: Fs/Pipe.antt; Window has the bytes in the ring, Queue the bounded
--   queue that it implements.
-- - fs/fs.c, the tree of files: Fs/Tree.antt, with find_node, fs_getnode, fs_mknode, fs_rmnode and
--   fs_reghook over nodes behind places, and Tree/Hooks, with fs_open and the calls of hooks, which
--   are a parameter. Tokens is about the names of a path, Lookup about find_node, Make and Nodes about
--   making and removing a node. Tree/Special has fs_init with stdio_mknode and pipe_mknode of
--   fs/fs_special.c and fat_mknode of fs/fs_generic.c; Registered is about a node that is made with
--   hooks, Start about fs_init.
-- - fs/fat.c: Fs/Fat.antt, the entries of the allocation table (Entries) and the chains (Chain);
--   Fat/Volume, the regions of a volume (Regions); Fat/Names, the names of entries (Short, Long and
--   Both); Fat/Directory, reading a directory (Listing); Fat/Search, fatfs_opendir and
--   fatfs_searchfile (Path). The disk is a parameter, the byte at each place of each sector, as
--   pio_read_sector reads it; so are the memory, the address that malloc gives for a size, and what
--   a fresh buffer holds.
-- - fs/fs_generic.c: Fs/FatFile.antt, reading and seeking, and FatFile/Open, fat_open.
-- - fs/mbr.c: Fs/Mbr.antt.
-- - include/list.h: Links.antt, the next and prev of each address. Ring says when they make a list,
--   Moves what the operations do to it.
-- - proc/proc.c and proc/thread.c, proc_destroy and thread_destroy: Proc/Destroy.antt, over Links.
-- - arch/x86/io.h, isa.c and serial_port/serial_port.c: Devices.antt, with the events at ports as a
--   list and the answers of the devices as another; Isa and Isa/Sectors are about the disk, Serial
--   and Serial/Sent about the serial port, Waits about waiting for a bit.
-- - lib/printf.c: Klibc/Printf.antt; Read reads the numbers back, Format is about format strings.
-- - lib/coding.c, UTF-8: Klibc/Utf8.antt, and Decode, which reads it back.
-- - display/GlyphBDF.c and display/PotableGrayMap.c: Display/Glyph.antt finds a character in the
--   font file and makes its grey map, Display/Screen.antt has the frame buffer and
--   Display/Console.antt the cursor. Picture goes from the font file to the pixels.
-- - Prelude.antt and its children: Boolean tests, lists and machine words.
--
-- Machine words are native natural numbers with their wrap-around written out; a negative number is
-- its 64-bit pattern. Loops over lists and counts are structural. Some loops have fuel: the heap's
-- and the pages' merging have one round for each block, and sched has one round more than its queue
-- has threads; a chain of clusters has one round for each cluster of the chain, since the source's
-- loop does not end on a cyclic one; the loop over the names of a path has one round more than the
-- path has bytes; the search of a directory has one round for each entry that it has room for. The
-- theorems show that this is enough. A failed assertion, which halts the
-- machine, is an outcome of the call, as is a NULL that is dereferenced. Printing is left out.
-- Interrupts are off in the kernel while these functions run, so each call is one step.
--
-- Not modelled: fatfs_destroy, fatfs_rewinddir and read_file of fs/fat.c, queue_destroy, most of
-- lib/string.c, the arguments and the environment that proc_dup copies, and loading programs; the
-- loader, the local interrupt controller and the other devices are mostly port input and output.
pub mod Prelude
pub mod Links
pub mod Mm
pub mod Paging
pub mod Fs
pub mod Klibc
pub mod Proc
pub mod Display
pub mod Arch
pub mod Devices
