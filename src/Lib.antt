-- ===== src/Lib.antt =====
-- A verification library for the xv6 kernel of this repository, with its lottery and stride schedulers,
-- and for parts of its user programs.
--
-- The program's parts and the files that model them:
--   Proc      kernel/proc.c, kernel/proc.h: the process table. Proc/Lottery has the ticket ranges,
--             `rand_int` and a round of `scheduler` in the LOTTERY build, Proc/Stride `findMinStride`
--             and a round in the STRIDE build, Proc/Alloc `allocpid`, `allocproc`, `freeproc` and
--             `fork`, Proc/Life `reparent`, `exit`, `wait`, `sleep`, `wakeup`, `kill` and `yield`.
--   Log       kernel/log.c: a commit as the list of its disk writes, recovery, and the accounting of
--             `begin_op`, `log_write` and `end_op`. Log/Session has the calls in progress, with the blocks
--             that each has written, and their steps.
--   Pipe      kernel/pipe.c: the ring of a pipe with its 32-bit counters.
--   Kalloc    kernel/kalloc.c: the free list of pages.
--   Locks     kernel/spinlock.c and kernel/sleeplock.c: locks, and the nesting of interrupt disables.
--   Bio       kernel/bio.c: the list of buffers.
--   Strings   kernel/string.c, over a memory of bytes.
--   Grep      user/grep.c: the regular expression matcher.
--   Ulib      user/ulib.c, over the same memory.
--   Console   kernel/console.c: the edited input ring.
--   File      kernel/file.c: the reference counts of the file table, and the transactions of `filewrite`.
--   Sysfile   kernel/sysfile.c: file descriptors, in `argfd`, `fdalloc`, `sys_dup` and `sys_close`.
--   Fs        kernel/fs.c: the inode table behind `iget` and `idup`, and `skipelem`; Fs/Blocks has the bit
--             map with `balloc` and `bfree`, Fs/Bmap `bmap` and `itrunc`, and Fs/Rw `readi` and
--             `writei`, within a transaction on the log of Log.
--   Uart      kernel/uart.c: the transmit buffer behind `uartputc` and `uartstart`.
--   Virtio    kernel/virtio_disk.c: the descriptors that the disk driver shares with the device, the two
--             halves of `virtio_disk_rw` around its wait, and `virtio_disk_intr`.
--   Printf    kernel/printf.c and user/printf.c: `printint`, `printptr`, `printf` and `vprintf`.
--   Vm        kernel/vm.c and the macros of kernel/riscv.h: three-level page tables. Vm/Table has `walk`,
--             `walkaddr`, `mappages`, `kvmmap` and `uvmunmap`, Vm/User the memory of a process, Vm/Copy
--             `copyin`, `copyout` and `copyinstr`.
--   Sh        user/sh.c: the parser of command lines, from `gettoken` to `parsecmd`.
--   Prelude   helpers on lists, options and machine words that the others share.
-- Each component's parent file holds its state and operations under the names of the source, in this
-- library's spelling (`findMinStride` is `find_min_stride`). Child modules prove, and Tests holds runs
-- and the theorems at concrete inputs.
--
-- How state and control are modelled. The process table is a list of records and a pointer into it is
-- an index plus one, with 0 for null. An operation takes the state and gives the new one; a panic or an
-- error return is `none` or a constructor. A critical section is one step. A loop that sleeps is its
-- round: the result says whether it returned or went to sleep. Integers of the source's 32-bit types
-- are their bit patterns, with the wrap-around written out. Addresses are not wrapped: the ranges of a
-- call lie below 2^64.
--
-- Fuel. `strlen`, the loops of Ulib that run to a terminator, and the loop of `filewrite` run on fuel,
-- a bound on the characters or bytes; the theorems on them give a result for any fuel above the
-- length. The parser of Sh runs on four times the length of the line and four, which is enough, as its
-- theorem says. The outer loop of `balloc` runs for the number of bit map blocks. The loops of Vm/Copy
-- run on their byte count, and those of Vm/Table and Vm/User on the number of pages; `freewalk` goes
-- down three levels of tables. `freerange` runs for the number of whole pages that fit, and the kill
-- loop of `consoleintr` for `e - w` rounds at most. `free_chain` runs on NUM, more than the three
-- descriptors of a chain, and `virtio_disk_intr` on the number of entries that the device has added.
-- The first loop of `printint` runs on the room in its `buf`, and `uartstart` on the number of
-- characters that wait. `readi` and `writei` run on the number of bytes left, since each round moves
-- one at least. All other loops are recursion on a list or on the count of the source.
--
-- How the parts interact. `fork` and `wait` use the slots of Proc/Alloc, and a claim of a slot sets
-- tickets through Proc/Lottery. `exit` is `reparent`, `wakeup` and a change of state. The log reads
-- and writes blocks by a view of the buffer cache over the disk; its pins are counts per block. Page
-- tables take their pages from the free list of Kalloc, and copies between address spaces are the
-- `memmove` of Strings. In Proc and Pipe, whether `kalloc`, `proc_pagetable`, `uvmcopy`, `copyin` and
-- `copyout` succeed is an argument of the functions that call them. `readi` and `writei` go over `bmap`
-- and `balloc`. `balloc`, `bfree`, `bzero`, `bmap` and `writei` call `log_write` of Log on the log that
-- goes with the disk; once this has panicked the log stays `none`, and `writei` is then `none` too. Of
-- `iupdate` there is only the `log_write` of the inode's block. What `readi` and `writei` copy with is
-- an argument, for which the `memmove` of a kernel address is given. The loop of `filewrite` has
-- `writei` as an argument, a function of address, offset and count.
--
-- Not modelled: the kernel's own page table and its registers, `exec`, the rest of the file system,
-- the dispatch of `fileread` and `filewrite` on pipes and devices, the other system calls and their
-- arguments, traps, the device registers, the execution of shell commands and the other user programs.
-- Interleavings inside a critical section are not modelled, since its lock excludes them.
pub mod Prelude
pub mod Proc
pub mod Log
pub mod Pipe
pub mod Strings
pub mod Grep
pub mod Kalloc
pub mod Locks
pub mod Bio
pub mod Ulib
pub mod Printf
pub mod Console
pub mod File
pub mod Fs
pub mod Uart
pub mod Virtio
pub mod Vm
pub mod Sysfile
pub mod Sh
