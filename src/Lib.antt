-- ===== src/Lib.antt =====
-- The kernel of Tnix, a small Unix for RISC-V (kernel/), modelled as functions, with what they do
-- proved.
--
-- The parts and how they interact. User programs enter through traps (kernel/trap) and system calls
-- (kernel/syscall); these work on tasks (kernel/task), on open files, which are inodes, pipes or
-- devices (kernel/fs, kernel/dev), and on pages (kernel/mem). Everything stands on the spin lock
-- and the byte functions of kernel/util.
--
-- Which file models what:
--   Common: lists as C arrays, Boolean tests, 32-bit arithmetic, the bits of a word.
--   Util/Str: kernel/util/string.c. A memory gives each address its byte; each function has the
--     source's name, its loops are functions of their own.
--   Util/Spin: kernel/util/spinlock.c with `push_intr` and `pop_intr` of kernel/task/cpu.h. `spin_get`
--     and `spin_put` are cut into the steps that other harts see: `get_begin`, `get_try`, `get_own`,
--     `put_begin` and `put_release`; `Step` lets any hart make its next one.
--   Fs/Pipe: kernel/fs/pipe.c. A call of `piperead` or `pipewrite` returns or sleeps; a woken writer
--     goes on with `write_loop`. Stream lets a writer and a reader run in any order.
--   Fs/Blocks and Fs/Bitmap: the block and inode maps of kernel/fs/fs.c and kernel/fs/inode.c, on a
--     disk that gives each block number its bytes.
--   Util/Print: kernel/util/printf.c. The output is a list of bytes.
--   Mem/Pages: kernel/mem/alloc.c, the list of free pages. Mem/Slots: kernel/mem/slot.c on top of it, what
--     `slot_define` makes of one table.
--   Mem/Vm: kernel/mem/vm.c: `do_vmmap`, `vmunmap`, `get_pte`, `va_to_pa`, `copy_to_user` and `copy_from_user`, on the
--     memory and the free pages of Mem/Pages. Mem/Words: a 64-bit word in that memory.
--   Mem/Heap: `sys_alloc` and `sys_free` of kernel/syscall/sysmem.c, with `alloc_page_for_task` and `task_vmmap`, on Mem/Vm
--     and Mem/Slots.
--   Fs/Bio: kernel/fs/bio.c, the list of buffers over a device that gives each block its bytes, with the holder of each
--     buffer's sleep lock.
--   Fs/Inode: `iblock_cnt`, `data_block_get` and `data_block_alloc` of kernel/fs/inode.h and inode.c, on the disk of
--     Fs/Blocks. Fs/Dinode: `iread` and `iupdate`. Fs/Icache: `iget`, `iref` and `iput`, on the table of inodes.
--   Fs/Names: the names and paths of kernel/fs/dir.c. Fs/Dir: `dentry_find`, `dentry_add` and `dentry_del`, on
--     the blocks of a directory. The gets and puts of inodes on the way of `dentry_find` are a loop over the counts of
--     their own, `walk_refs`; an inode that an entry names is taken to exist.
--   Fs/File: `blockno_of_data` and `fread` of kernel/fs/file.c.
--   Dev/Console: kernel/dev/console.c, the line discipline and the reader.
--   Task/Tid: `alloc_tid` and `free_tid` of kernel/task/task.c.
--   Task/Sched: the table of tasks: `sleep`, `wakeup`, `yield`, `kill` and the scheduler's choice of
--     kernel/task/sche.c, `alloc_task` of kernel/task/task.c, and `sys_fork`, `sys_exit` and `sys_wait` of
--     kernel/syscall/systask.c.
--   Task/SleepLock: kernel/util/sleeplock.c, cut into the steps that other tasks see, on the table of tasks.
--   Syscall/Fd: a task's table of open files: `move_fdi`, `sys_dup`, `sys_close` and the end of `sys_open`
--     of kernel/syscall/sysfs.c, with `fdup` and `fclose` of kernel/fs/file.c.
--   Syscall/Paths: `create`, `sys_mknod`, `sys_mkdir`, `sys_link`, `sys_unlink`, `sys_rmdir` and `sys_chdir` of
--     kernel/syscall/sysfs.c and `argstr` of kernel/syscall/syscall.c, on the directories of Fs/Dir. The state has each
--     inode and the count of its references; the inode cache is taken to have room.
-- The Examples modules hold runs and the theorems at concrete states.
--
-- Values of `u32` and `u8` are natural numbers with the wrap-around written out. `none` stands for a
-- panic, for an access outside an array or for a loop that has run out of its rounds, as each
-- function says.
--
-- Bounds and fuel: `read_loop` and `write_loop` make a round only with bytes to copy, so that one
-- round more than there are bytes is enough; `fread_loop` has as many rounds as
-- bytes and one more; `strlen` and `strcpy` get one round for each byte and one
-- for the NUL; the digits of a 64-bit number are at most 64, for which `put_number` has 65 rounds; `walk` takes a byte
-- of the path in each round; that these suffice is proved. `printstr` has the fuel that its caller gives.
-- The loops over the pages of an area have the rounds of the source, written as a division;
-- `copy_to_user` and `copy_from_user` have a round for each byte and one more, which is proved to
-- be enough. All other loops run over an array or a list of known length.
--
-- Not modelled: boot, traps and the interrupt controller (registers and assembly), the disk and
-- serial drivers (devices), copying and releasing the memory of a task, the kernel's own page
-- table, the linked lists (lists in their place), the stacks, registers, memory and files of a
-- task in fork and exit, the loader, truncating a file and removing a block from it, writing and
-- seeking in files, the other system calls, mkfs and the user programs. Faults of user addresses
-- in `copy_to_user` and `copy_from_user` are not a case of the pipe and the console.
pub mod Common
pub mod Util
pub mod Mem
pub mod Dev
pub mod Fs
pub mod Task
pub mod Syscall
