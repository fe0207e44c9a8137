-- ===== src/Lib.antt =====
-- LarvaOS: a model of the kernel for x86: its C part (src/kernel/arch/x86 and src/kernel/libc) and
-- the C++ classes above it (src/kernel/core).
--
-- The kernel runs on a flat memory. The block heap cuts one region of it into blocks and keeps a
-- table with a byte for each of them; the kernel heap is one such heap at fixed addresses, and
-- paging and the disk stream take their objects from it, and so do the path parser, the
-- descriptors of open files, tasks and processes. The stream reads the disk sector by sector, and
-- the FAT16 file system reads the stream; the virtual file system calls it through function
-- pointers. A process is a file loaded into memory, with a task, which has page tables of its own
-- and stands in a linked list. The segment descriptors and the interrupt table are built once,
-- when the kernel starts. The text screen is what every part prints to. The string functions serve
-- all of them.
--
-- Parts, files and the code they are about. Paths of C files are below src/kernel/arch/x86, and
-- those that start with libc below src/kernel.
-- - Base: what the others share: tests, arrays, machine words, the memory, bit operations.
-- - Memory/Heap: memory/heap.c, the block heap. `Ram` is the memory, one byte at each address, in
--   which both the table and the blocks lie; each function has the name of its C function and
--   returns the memory next to the result. Loops are functions of their own, of the rounds left:
--   `scan` in get_free_blocks, `take_rest` in mark_blocks_taken, `find_first` and `clear_run` in
--   mark_blocks_free. Layout says what a table shows: a list of free blocks and allocations.
--   Refine, Requests and Release are about malloc and free on such lists.
-- - Memory/Kheap: memory/kheap.c, the kernel heap at its addresses. Kheap/Packed is about
--   allocations one after the other, with nothing given back.
-- - Memory/Paging: memory/paging.c. Entries has the shape of a directory, Ranges the mapping
--   calls, Space the tables of a new address space and Identity where these map a page to.
-- - Libc/Memory: memset and memcpy of libc/src/string.c. Libc/Strings: the rest of it, strings.c
--   and ctype.c. Libc/Numbers: itoa and atoi of libc/src/stdlib.c.
-- - Gdt: gdt_runtime/gdt.c. Gdt/Decode reads the bytes as the processor does.
-- - Interrupt: interrupt/interrupt.c. Interrupt/Gates reads the gates as the processor does,
--   Interrupt/Pic has the two interrupt controllers. What these do on a write to their ports is
--   taken from the data sheet of the 8259, as `IsPic`.
-- - Video: video/video.c, the cursor and the cells.
-- - Disk: disk/disk.c, with the port instructions and the drive as a parameter, `Ports`.
--   Disk/Drives has what the ATA standard says of a read of one sector, and Disk/Ready a drive
--   that keeps to it.
-- - Disk/Stream: disk/stream.c, with Disk/Stream/Round for one sector of a read and
--   Disk/Stream/Reads for all of it.
-- - Path: fs/path_parser.c. The parts and their texts are objects of the kernel heap. Path/Parts
--   is about taking the next part off a path.
-- - Vfs: fs/file.c and disk_init of disk/disk.c. `Filesystem` is the function pointers of a
--   `struct filesystem`, over a state `World` of its own. fopen is in three steps: the path, the
--   file system, the descriptor. Vfs/Descriptors is about the table of descriptors, Vfs/Calls
--   about the calls on one.
-- - Fat16: fs/fat16.c over Disk/Stream. Disk, Private, Item and Directory have the offsets of the
--   members of its structures; Clusters the table and reading, Directories directories and
--   opening, Volume the recognition of a volume. `Machine` is what every call that reaches the
--   disk needs. Chains, Names and Seek are about the chain of clusters, the names and the
--   position, and Reads is about reading a file cluster by cluster: Reads/Layout says where the
--   objects stand, Reads/Round what one call does.
-- - Task: task/task.c. The objects are kept by their address, and the static variables with them
--   in `Tasks`. Task/List has the shapes of the linked list, Task/Append a task at its end,
--   Task/Queues what the scheduler sees of it, Task/Scheduling the removal of a task,
--   Task/Creation make_new_task, Task/Turns the order in which tasks follow each other, and
--   Task/User reads the memory of a program.
-- - Process: task/process.c. Its calls of fopen, fstat and fread are an interface, `FileCalls`,
--   which Process/Files fills with Vfs. Process/Slots is about the table of processes.
-- - Core: the classes of src/kernel/core. Core/Strings is string.cc, with Lifetime for what a
--   string holds and gives back and Assign for the assignment; Core/Memory memory.cc, with Mapped
--   for the kernel's address space; Core/Files file.cc over Vfs; Core/Console iostream.cc and the
--   panic; Core/Boot the order of architecture.cc, with what it calls of process.cc and
--   interrupt.cc, and Core/Boot/Ready what stands then. An object is the record of its members, a
--   string the pointer to its text.
-- - Syscall: src/kernel/core/syscall.cc and what it calls of core/process.cc. A panic and an
--   access behind the table of handlers are results of type `Outcome`. Syscall/Table is about the
--   table.
-- Tests beside each part has runs at concrete values.
--
-- Integers are their bit patterns: an `int` or a pointer is a number below 2 ^ 32, a sum or a
-- difference that can wrap is taken modulo 2 ^ 32 where the code computes it, and a negative
-- result such as -EINVAL is its pattern. A negative index of heap_table wraps round the address
-- space. The words of a page table are addressed without wrapping, since tables do not lie at the
-- end of the address space.
--
-- The loops of the heap, of paging, of the screen and of the tables run a number of rounds that
-- the code computes. Other loops run on fuel. The functions that look for the end of a string take
-- one round more than its length, the wait for the drive one round more than the drive is busy, a
-- read from a stream one call for each 512 bytes begun, and the path parser one round for each
-- character and each part of the path and one more. itoa takes one round for each digit, atoi one
-- for each character and one more. The searches of FAT16 run on fuel as well: the items of a
-- directory, the parts of a path, and the calls of itself that reading makes, one for each
-- cluster.
--
-- Two registers are values: CR3 has the directory that was loaded last, and CR0 what enable_paging
-- writes, for which what eax holds then is a parameter.
--
-- Not modelled: what the code prints on its way, the other assembly routines, the table fat16_fs of
-- function pointers, and what the compiler asks for in exception.cc and default_symbols.cc. The
-- functions of a file system that Vfs calls are taken to return, but for `resolve`.
mod Base
pub mod Fat16
pub mod Core
pub mod Disk
pub mod Gdt
pub mod Interrupt
pub mod Libc
pub mod Memory
pub mod Path
pub mod Process
pub mod Syscall
pub mod Task
pub mod Vfs
pub mod Video
