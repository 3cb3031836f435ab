-- ===== src/Lib.antt =====
-- VROS, a teaching microkernel for x86 in C, under src/: kernel/ (tasks, ports, I/O permissions), mm/
-- (physical pages, the kernel heap), fs/ (file systems), drivers/ and lib/ (drivers, shell).
-- How the parts interact: the timer and blocking calls run the scheduler; a message port wakes the
-- task that waits at it and blocks a receiver through the scheduler; drivers and services are tasks
-- that talk through named ports, get their interrupts as messages and are allowed single I/O ports,
-- by bitmaps that the kernel heap holds; paging takes its frames from the page allocator; mounting
-- looks its device up in the table of block devices; paths are resolved over the mount table, and the
-- file system found reads and writes its blocks through the block device layer.
--
-- Files:
--   Base, Base/Tests, Base/Lists   C comparisons, the conditional, arrays as lists
--   Bits, Bits/Step, Bits/Word     single bits of machine words, for the bitmaps
--   Pmm and its children           src/mm/pmm.c: the static variables are the record `Pmm`, each
--                                  function has its C name, the loops are functions of their own
--   Kmalloc and its children       src/mm/kmalloc.c: the static variables and the block headers
--                                  are the record `Heap`
--   Task and its children          src/kernel/task.c (the Makefile builds this scheduler, not
--                                  task_mlfq.c) with src/include/task.h: the static variables are
--                                  the record `Sched`, task pointers are numbers
--   Ipc and its children           src/kernel/ipc.c with src/include/ipc.h: the port table, and the
--                                  scheduler that the calls act on, are the record `Ipc`
--   Ioport and its children        src/kernel/ioport.c: permissions on I/O ports, over the tasks of
--                                  `Sched` and the heap of `Heap`
--   IrqBridge and its children     src/kernel/irq_bridge.c: interrupts as messages, over `Ipc`
--   Keyboard and its children      src/drivers/keyboard.c: the static variables are `Keyboard`
--   CString                        the string functions of the next three
--   Blkdev and its children        src/drivers/blkdev.c: the table of block devices, a list of
--                                  `BlockDevice`
--   Netif and its children         src/drivers/netif.c: the table of interfaces, `Netifs`
--   Mount and its children         src/fs/mount.c: the mount table, a list of `MountPoint`
--   Bytes                          byte buffers and structures as bytes, for the file system
--   Vrfs and its children          src/fs/vrfs.c with src/include/vrfs.h: the on-disk structures are
--                                  records with their bytes, the superblock in memory is `SbInfo`,
--                                  disk, outcomes of kmalloc and count of allocated blocks `Machine`
--   Vfs and its children           src/fs/vfs.c with src/include/vfs.h: paths, the mount table of
--                                  `Mount` and inodes with operations of the file systems; OnVrfs
--                                  puts VRFS under it, Dentries has the tree of directory entries
--   Ramfs and its children         src/fs/ramfs.c with src/include/ramfs.h: inode pointers are
--                                  numbers, the nodes behind them a function `Nodes`
--   Netstack and its children      src/lib/netstack_driver.c: the static variables and the frames
--                                  sent are the record `NetStack`, frames are lists of bytes
--
-- Conventions: uint32_t arithmetic wraps by `% 2 ^ 32` where it can wrap. A pointer is a number with 0
-- for NULL, or an index into the array that it points into. An array is a list; a write outside it,
-- undefined in C, changes nothing, and hypotheses keep indices inside. Functions of other files that
-- a function calls are parameters where they are not modelled here: the functions of device drivers,
-- which the tables hold as pointers; the results of `kmalloc` in `task_create`, VRFS and `Ramfs`, and of `vrfs_mount` in
-- `mount_fs`; what other tasks do while `ipc_recv` waits.
-- Loops: the search for a free page has a round for each word and each bit; the loop over zombies has
-- the 32 rounds of the source; loops over tables recur on the table; loops over the heap's list have
-- fuel, and the theorems show that as many rounds as there are blocks suffice; so has the loop over a
-- path, for which a round for each character and one more suffice, and the loop over the carries of
-- a checksum, for which two suffice, and the loop over the components of a path in ramfs.c, for which
-- a round for each character suffices.
--
-- Not modelled: assembly and interrupts of the machine, the register protocols of devices, the text
-- output of the shell and of procfs, address translation, and of fs/ all but mount.c, vrfs.c,
-- ramfs.c, and vfs.c without its allocation of inodes.
pub mod Base
pub mod Bits
pub mod Pmm
pub mod Kmalloc
pub mod Task
pub mod Ipc
pub mod Ioport
pub mod IrqBridge
pub mod Keyboard
pub mod CString
pub mod Blkdev
pub mod Netif
pub mod Mount
pub mod Bytes
pub mod Vrfs
pub mod Vfs
pub mod Ramfs
pub mod Netstack
