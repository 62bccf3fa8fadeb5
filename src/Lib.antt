-- ===== src/Lib.antt =====
-- Nachos 3.4, the lab version: the file system, the simulated machine, its interrupts, its threads
-- and their lock.
--
-- The program is an operating system kernel that runs on a simulated MIPS machine. Its files name
-- the parts; a path is below nachos-3.4/.
--
-- The bitmap of free sectors (userprog/bitmap.cc) is BitMap: `mark`, `clear`, `test`, `find` and
-- `num_clear` on an array of words. FileHeader (filesys/filehdr.cc) takes sectors from it and
-- gives them back: `allocate`, `deallocate`, `byte_to_sector`, with the index block on the disk
-- for large files. Directory (filesys/directory.cc) maps names to the sectors of such headers:
-- `find`, `add`, `remove`. Disk is the disk as filesys/synchdisk.cc presents it, a sector at a
-- time, and Disk/Drive the simulated one of machine/disk.cc under it: `read_request` and
-- `write_request`, with the latency and the interrupt that ends a request.
--
-- OpenFile (filesys/openfile.cc) reads and writes the bytes of a file through such a header,
-- `read_at` and `write_at`, and from a position, `read` and `write`; FileHeader/Stored brings a
-- header to the disk and back. What new storage holds is a function of its size (`fresh`), and
-- the time field of a header after `getFormatDate`, which writes 19 of its 20 bytes, is an
-- argument (`now`).
--
-- Storage is the bitmap and the directory as the contents of files, `FetchFrom` and `WriteBack`,
-- and FileSystem (filesys/filesys.cc) puts all these together: `create_file`, `open_file`,
-- `remove_file`, and the constructor, which formats the disk or mounts it: `format`, `mount`.
-- FileSystem/Mounted says what a mounted disk is. A Host holds what new objects hold before they
-- are initialised.
--
-- LinkedList (threads/list.cc) is the list that the kernel's queues are made of, on a heap:
-- `append`, `prepend`, `sorted_insert`, `sorted_remove`, `remove`, `remove_item`, `delete_all`
-- and `mapcar`. LinkedList/Chain says when a heap holds a sequence.
--
-- Interrupt (machine/interrupt.cc) is the clock and the pending interrupts: `schedule`,
-- `check_if_due`, `one_tick`, `set_level` and `idle`. It keeps the pending ones as the sequence
-- that such a list represents. Timer (machine/timer.cc) is the device that arms itself again, with
-- the time slice of threads/system.cc.
--
-- PostOffice (network/post.cc) is the mail between machines: `send`, `deliver` and `receive`, over
-- the packets of machine/network.cc, `network_send`, `check_pkt_avail` and `network_receive`. What
-- new storage holds is an argument, and so is whether a packet gets lost.
--
-- Machine (machine/machine.cc) is the simulated host. Machine/Translate is `Machine::Translate` of
-- machine/translate.cc through a page table or a TLB, Machine/Tlb is `Machine::tlbSwap`, which the
-- kernel calls on a miss. Machine/Memory is `ReadMem` and `WriteMem` of machine/translate.cc with
-- `RaiseException` and the page fault's branch of userprog/exception.cc. Machine/Decode and
-- Machine/Cpu are `Decode` and `OneInstruction` of machine/mipssim.cc, Machine/Alu and
-- Machine/Mult its register instructions and the multiplication. At a system call `OneInstruction`
-- stops and hands the machine over.
--
-- AddressSpace (userprog/addrspace.cc) is the memory of a user program: `new_space` loads an
-- executable into frames of the machine, `delete_space` gives them back, `restore_state` puts its
-- page table on the machine; `system_call` is the branch of userprog/exception.cc for the calls
-- that end a program, with `clear_all` of machine/machine.cc. The executable is given by what its
-- `ReadAt` copies.
--
-- A result is an `Outcome` of Prelude/Outcome: a value, `abort` for a failed ASSERT, or `wild`
-- for an access outside an array or through NULL, or an `int` that overflows, about which nothing
-- is claimed. An `int` is its 32-bit pattern, with the wrap-around written out, where it can be
-- negative; it is a plain number where the source keeps it positive, and sums of positions and of
-- times are checked (`int_sum`). Arrays are lists, an object that an operation changes is a value
-- that it takes and returns. Each loop is a recursion on the number of its rounds or on the array
-- that it runs over; the multiplication's loop has the 32 rounds of the source. Where the source
-- follows pointers or waits for a condition, the function takes a number of rounds and is `wild`
-- without any: `insert_after`, `remove_after`, `delete_all` and `mapcar` of LinkedList, for which
-- one round more than there are elements is enough, and `run_due` of Interrupt, for which one
-- more than interrupts are due is.
--
-- Scheduler is threads/scheduler.cc with the parts of threads/thread.cc that switch threads:
-- `ready_to_run`, `next_after_yield`, `next_after_sleep`, `run`, `yield_thread`, `sleep`, `finish`
-- and `fork`; Scheduler/Create is the constructor of a thread. Its ready list is the sequence that
-- a LinkedList represents. Synch (threads/synch.cc) is a lock with its semaphore and a condition
-- over that scheduler: `acquire`, `release`, `wait`, `signal` and `broadcast`. Interrupts are off
-- in each, so that a call is one step up to where the thread sleeps. Synch/Step lets any number of
-- threads take these steps in any order: between them the timer may make a thread yield, a device
-- may wake one from outside (`arrives`), and the idle processor goes on when one is ready
-- (`resumes`).
--
-- The children of each module hold its laws; the tests stand in Tests.
--
-- Not modelled: the stacks and saved registers of threads, the sockets of the network, the
-- console, the host interface and statistics, printing and debug output, and the drivers for
-- manual tests.
pub mod AddressSpace
pub mod BitMap
pub mod Directory
pub mod Disk
pub mod FileHeader
pub mod FileSystem
pub mod Interrupt
pub mod LinkedList
pub mod Machine
pub mod OpenFile
pub mod PostOffice
pub mod Prelude
pub mod Scheduler
pub mod Storage
pub mod Synch
pub mod Tests
pub mod Timer
