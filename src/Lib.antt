-- ===== src/Lib.antt =====
-- A formal model of the core of i80k, a small kernel for the 8086 family. Its C is in kernel/ and
-- libc/; all paths below are from the root of the repository.
--
-- The parts that are modelled, from the bottom up. A ring buffer carries bytes between an
-- interrupt handler and its reader (kernel/core/ringbuffer.c). Block drivers register devices,
-- and the block layer turns reads and writes of bytes into reads and writes of whole blocks
-- (kernel/core/blkdev.c). A registered device is probed for a master boot record, and each of its
-- partitions is registered as a device of its own, whose functions call the parent's
-- (kernel/core/subdev.c). The compact flash driver queues the requests of tasks and moves a
-- sector at each interrupt (kernel/drivers/block/cf20). The ext2 driver maps the blocks of a file
-- to positions in its tree of pointers, follows them, and reads the bytes of the file
-- (kernel/drivers/fs/ext2/io.c). The virtual file system normalises a path, looks up its mount,
-- counts the handles on it, and calls the file system that is mounted there (kernel/core/fs.c).
-- The system calls on files keep the handles in the descriptors of the task
-- (kernel/syscall_fs.c). The ext2 driver finds the inode of a path through the entries of its
-- directories (kernel/drivers/fs/ext2/dir.c). The console queues bytes for the serial line, whose
-- driver moves them at its interrupts (kernel/console.c, kernel/drivers/pc16550.c). Far memory is
-- handed out in pages (kernel/page.c). The lists of the kernel are circular, through nodes in the
-- structures they hold (kernel/core/list.h), and memory comes from a buddy allocator
-- (libc/malloc.c), on a heap whose end the kernel moves (libc/brk.c, kernel/heap.c). The flash
-- driver erases and programs the chip of the ROM (kernel/drivers/block/cfi/cfi.c). The scheduler
-- keeps the tasks, each on the queue of its state, and is called by the clock, the block driver
-- and the system calls (kernel/core/scheduler.c).
--
-- Files:
-- - Base: numbers, lists, words, and driver calls as state passing. Base/Slice: memcpy as `blit`.
-- - RingBuffer: `ring_buffer_*`. Children: the bounded queue, index arithmetic, the refinement.
-- - Blkdev: `blk_block_trim_range`, `blk_trim_range`, the block and byte transfers, `blk_default_read`
-- and `blk_default_write`, each in the parts that its loop-free body has. Children: IsDisk, what a
-- driver promises; reads; writes; both together.
-- - Links: `list_*`. Children: the nodes that the links tell, insertion, deletion.
-- - Malloc: `getindex`, `getbuddy`, `fb_add`, `fb_remove`, `malloc`, `free`. Children: the index of a
-- size; how often a byte is covered; the loops of `malloc`; the invariant; `malloc`; `free`.
-- - Registry: the list of devices, `blk_dev_add`, `blk_open`, `blk_unregister`.
-- - Subdev: `mbr_probe`, `mbr_publish_device`, `subdev_*`, `blk_register`. Subdev/Window: the
-- partition as a disk.
-- - Cf20: `cf20_handler`, `cf20_read_block`, `cf20_write_block`, the commands and transfers of
-- cf20_cmds.c. Children: the sectors of a request; a request on an empty queue; one behind another;
-- what the registers tell; Cf20/Identity: `cf20_identify`, `cf20_set_feature`, and the texts.
-- - Scheduler: `task_put`, `schedule`, `scheduler_wake_up`, `scheduler_queue_new`,
-- `scheduler_sleep_on`. Scheduler/Exit: `scheduler_exit`, `scheduler_wait`. Children: the order of
-- the ready list, the invariant, and what the operations keep of it.
-- - Clock: `clk_wakeup`, `clk_handler`, `clk_gettime`, `clk_nanosleep`. Children: reading and
-- sleeping; which tasks a tick wakes up.
-- - Descriptors: `task_put_desc`, `task_get_desc`, `task_reset_desc`. Its child: which places change.
-- - FsPath: `fs_normalize_path`, a state machine over one buffer. Children: one turn, the loop.
-- - Mounts: `find_mount`, `put_mount`, `fs_open_file`, `fs_close_file`, `fs_unmount`; a name that ends in
-- `_at` is a call on a path that is normalised. Children: the paths; the counts; where a path is cut. Mounts/Calls: `fs_mount`, `fs_make_dir`,
-- `fs_remove_file`, `fs_create_file`, `fs_open_dir`, `fs_close_dir`, and their balance.
-- Mounts/Files: the calls on an open file, `fs_load_file`, `trim_name`.
-- - Syscalls: `sys_open`, `sys_read`, `sys_write`, `sys_close`, `sys_mount`. Its child: a file that is
-- opened, read and closed.
-- - Ext2: `ext2_mount`, `get_inode_addr`, `ext2_load_inode`. Ext2/Dir: `ext2_dir_lookup`; its children: the
-- entries of a block, and of all blocks. Ext2/Walk: `ext2_walk`, `ext2_lookup`, `ext2_read_link`,
-- `ext2_open_file`; its child: paths without links.
-- - Interrupts: `interrupts_*`, `irq_*`, `p8259a_*`.
-- - Serial: the state of a serial line. Serial/Pc16550 and Serial/P8251: `uart_initialize`,
-- `uart_handler`, `uart_start_xmit` of each driver. Children of the first: the bytes between rings and
-- ports; a run of the handler.
-- - Console: `console_*`. Children: what the rings hold; a text on its way to the line.
-- - Pages: `page_*`, and the loop of `mem_initialize`. Children: how much is free; allocation and release.
-- - Flash: `cfi_*`. Children: the far address of a block; the commands of the chip; a block that is written and read back.
-- - Brk: `sbrk`, `brk`, `heap_brk`. Its child: what is granted.
-- - Kthread: `kthread_start`, `kthread_initialize`. Its child: a thread that was started.
-- - Inode: `ext2_get_block`, `file_block_to_fs_block`, `ext2_read_inode`, `ext2_read_file`. Children:
-- ranges of bytes; the blocks of a file; their places on the device; a whole read.
-- - BlockMap: `ext2_calculate_block_pointer_pos`, and the order in which the pointers count.
--
-- State and numbers. A C function that changes state takes it and returns it. A function that
-- returns an `int` returns `Ret`: `ok n` for n, `err e` for -e. On this target `int` and `size_t`
-- have 16 bits and `long`, `off_t` and `block_t` 32; where a sum or a product can wrap, the wrap
-- is written out. Ports are an interface of `inb` and `outb` on a state of the hardware. Driver
-- functions and the allocator are arguments: `can_alloc n` says whether malloc gives n bytes. A
-- pointer that may be null is an Option. The buffer of a caller of a read is the list of bytes
-- that the call returns; a write takes the bytes.
--
-- A table of descriptors is a list of its 16 places. The code allocates room for half of them, so
-- the others of a new table are what memory holds after it, an argument. A wait names the dead
-- task that it frees; the store of tasks is not changed, as nothing clears it.
--
-- Tasks are known by their addresses: the state holds a function from addresses to tasks, and the
-- queues hold addresses. The operations of the scheduler return none where the code fails its
-- assertion or reads through a null `current`. The switch of the processor's context is assembly:
-- in the model a switch changes `current`, and one turn of the loop of `scheduler_wait` is a step
-- of its own, since the next turn is taken when the task runs again. The queues of the clock and
-- of the block driver stand in the same state, as the tasks on them do; Cf20 has the queue of
-- requests by itself, and lists the tasks that it wakes.
--
-- Fuel. `fs_normalize_path`, `list_length`, the loops of `getindex`, the middle blocks of
-- `ext2_read_inode`, the loops that wait for a compact flash card or a flash chip or serve a
-- serial line, the entries of a directory block and the turns of a walk run on fuel; no fuel is
-- enough for a card that is never ready, a line that always interrupts or a directory whose
-- entries lead back. A text of n characters needs at most 4 n + 4 turns: each turn either
-- consumes a character or lowers a rank that is at most 3. The count of a list needs one more
-- than its nodes. A read needs more fuel than its bytes, since each turn takes at least one.
-- `getindex` needs one more than the doublings, of which a size up to 2 ^ 15 has at most 12;
-- above it the loop does not end.
--
-- Not modelled: `fs_format_device`, `fs_stat_fs` and the calls of fs.c that only print or, as
-- `fs_read_dir`, pass on their arguments; the dispatch of system calls; `calloc`, which is
-- `malloc` and an external `memset`; the calls of the ext2 driver that only free memory or copy
-- fields; the start of the compact flash driver (`cf20_probe`), which calls the other parts in
-- order; timers and delays; assembly; printf, and the xmodem library, which are copies of other
-- projects. The components other than Links take lists as sequences; the theorems of Links say
-- how the circular lists of kernel/core/list.h hold them. The macros of list.h that turn a node
-- into its structure have no counterpart, since a structure is known by its node.
pub mod Base
pub mod Blkdev
pub mod BlockMap
pub mod Brk
pub mod Cf20
pub mod Clock
pub mod Console
pub mod Descriptors
pub mod Ext2
pub mod Flash
pub mod FsPath
pub mod Inode
pub mod Interrupts
pub mod Kthread
pub mod Links
pub mod Malloc
pub mod Mounts
pub mod Pages
pub mod Registry
pub mod RingBuffer
pub mod Scheduler
pub mod Serial
pub mod Subdev
pub mod Syscalls
