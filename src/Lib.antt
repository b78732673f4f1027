-- ===== src/Lib.antt =====
-- A model of the kernel modules of this repository, with theorems on what they do.
--
-- The repository holds independent Linux modules, each of one file; no module calls another. What
-- they share is the kernel, whose calls stand here as commands of the models (allocation, locks,
-- copies), as parameters with their documented behaviour (simple_write_to_buffer,
-- simple_read_from_buffer, the answers of kmalloc and filp_open) or as interfaces of operations and
-- laws (the records Kernel of NetworkProcfs, Netfilter of Filters, ListHead of KoolList, Access of
-- SysfsCore, UsbCore of Usb, ProcFs of ProcExample). Log messages are kept where printing is what a
-- module is for (Filters, KoolList, Tasks, Ports, Parameters, Usb), and left out elsewhere. Two parts
-- meet in the kernel: procfs.c and seq_file_procfs.c make the same directory (ProcExample), and the
-- program keyboard_interrupt_misc_device_test.c reads from the device of
-- keyboard_interrupt_misc_device.c (Programs).
--
-- Parts, and the files that model them:
--
--   network_procfs.c                    NetworkProcfs: Machine (struct network_list behind pointers,
--                                       the globals, commands that may fault or spin), Driver (free,
--                                       add_to_list_network, hook_func, my_start, my_next, my_show,
--                                       my_write, init_packet, cleanup_packet), Linked (what a chain
--                                       of nodes stands for), Updating, Adding, Accounting, Traffic,
--                                       Loading, Order (the bag of the packets), Releasing, Reading,
--                                       Files (the tables swaps_op and fops, reading through seq_file),
--                                       Events (all of them in any order), Processors (hook_func
--                                       on two processors at once), Sharing
--   keyboard_interrupt_misc_device.c    Keylog: Driver (testirq_handler, keylog_open, keylog_close,
--                                       keylog_read before and behind its wait, init and exit), Files
--                                       (keylog_fops, keylog_dev), Keys,
--                                       Readers (late and overlapping reads), Exit
--   file_proc.c                         Simacc: Driver (simacc_write, simacc_read, init and exit),
--                                       Runs, Decimal, Sums
--   hardware_map.c                      Vram: Driver (my_read, my_write), Transfer, Files (vram_fops,
--                                       my_open, my_close), Stream (reading and writing in pieces)
--   misc_char_dev.c, procfs.c           TextDevices: Buffer, Device, Procfs, MiscCharDev, Prefixes,
--                                       Words, Reading, Interleaving, Files (misc_fops, misc_dev, fops),
--                                       Agreement
--   sysfs_example.c                     Sysfs: Driver (id, jiffies and foo), Attributes, Files (attrs,
--                                       through the file names and modes), Directory, Isolation
--   kobjects.c                          Kobjects: Driver (foo, baz and bar), Scanning, Attributes,
--                                       Files (attrs, likewise), Directory, Types
--   seq_file_procfs.c                   SeqFile: Driver (the seq_file operations), Rounds, Files (the
--                                       tables swaps_op and fops, reading through seq_file)
--   chardev_fops.c                      Memory: Driver (memory_read, memory_write), Writing, Files
--                                       (memory_fops, memory_open, memory_release), Register
--   vfs_basic.c, read_write_vfs.c       Vfs: Driver (file_open to file_exit), Limits, Reader
--                                       (init_module of read_write_vfs.c)
--   packet_filter.c,                    Filters: Netfilter (the kernel's tables of hooks), Driver (the
--   packet_block_protocol.c,            three hooks and their init and exit functions; those called
--   packet_hello.c                      hook_func are block_hook and out_hook), Loading, Traffic
--   kernel_linked_list.c                KoolList: ListHead (the kernel's lists), Driver (hello_init,
--                                       hello_exit), Ring, Leaving
--   thread_tree.c, cgroups_iterate.c    Tasks: Tree (hello_init), Walk, Cgroups (my_cgroup_init),
--                                       Subsystems
--   mouse_driver.c,                     Ports: Mouse (mouse_init), Polling, Keyboard (irq_handler)
--   keyboard_interrupt.c
--   preempt_schedule.c, kernel_thread.c Threads: Preempt (my_func), Kthread (thread_init, thread_exit)
--   usb_basic.c                         Usb: Core (how the kernel finds the entry of a device), Driver
--                                       (pen_table, pen_probe, pen_disconnect, pen_driver), Plugging
--   procfs.c, seq_file_procfs.c         ProcExample: ProcFs (the kernel's /proc tree), Driver (their
--                                       init and exit functions), Exclusion
--   keyboard_interrupt_misc_device_test.c, manager.c
--                                       Programs: Stdio (the standard output of a process), KeylogTest
--                                       and Manager (the main functions), Session (the first one on
--                                       the model of its driver)
--   debugfs_basic.c                     Debugfs: Sum (add_write)
--   parameters.c                        Parameters: Driver (hello_5_init), Files, Given, Exposed
--   init and exit functions             Lifecycle: Resources (what a module holds), Drivers (those of
--                                       hardware_map.c, procfs.c, seq_file_procfs.c, kobjects.c,
--                                       sysfs_example.c, chardev_fops.c, netlink_module.c,
--                                       misc_char_dev.c, keyboard_interrupt.c and usb_basic.c),
--                                       Balance, Debugfs (debugfs_basic.c and debugfs_jiffies.c),
--                                       Contracts, Pages (high_low_memory.c), Netlink
--                                       (hello_nl_recv_msg of netlink_module.c)
--
-- Prelude has the shared helpers: tests on numbers, lists, byte strings, machine words and sscanf;
-- RwLock is the kernel's reader-writer lock, and SysfsCore the attributes of a kobject as files, with
-- what the kernel lets a process do with them. The Examples files, and Cases and Runs of NetworkProcfs,
-- have concrete runs.
--
-- Machine integers are natural numbers with their wrap-around written out: an `int` is its 32-bit
-- pattern where it is computed with, and a ℤ where it is returned. Pointers of network_procfs.c are
-- numbers, with 0 for NULL; an object that is not allocated is `none`, and its use is a fault.
--
-- The loops over the list of network_procfs.c run on fuel. One unit more than the list has nodes is
-- enough; the theorems say so in their hypotheses and show that the run ends. The loops of
-- kernel_linked_list.c and thread_tree.c over circular lists need one unit more than there are nodes
-- or other tasks. The polling loop of mouse_driver.c ends when data has been available 100 times,
-- and not before; its fuel is the number of reads of the status, and one. The other loops are
-- structural: over the bytes of a buffer, over the rest of a request, over the subsystems. A process
-- that writes to /dev/memory until all is taken needs one unit of fuel more than it has bytes, one
-- that reads a text device to its end one more than the text has. A read through seq_file has room for
-- so many records, a number that stands for its buffer of a page and that of the user.
--
-- Not modelled: the kernel's own code; kallsyms.c, which calls a function of the kernel by its
-- address; exit functions that only log; concurrency within one system call but for hook_func and the
-- writing of misc_char_dev.c, and the timing of interrupts other than their order: the handler of
-- keyboard_interrupt_misc_device.c is called once for each open file at each of them, and what it
-- reads from the ports stays the same until the next. Memory that is written behind a buffer ends the
-- run of the model, but for the bytes that are named (`behind` of Simacc, `strays` of TextDevices). A write to a file of sysfs is of one piece, and
-- `printf` is of whole lines.
pub mod Prelude
pub mod NetworkProcfs
pub mod Keylog
pub mod Simacc
pub mod Vfs
pub mod Vram
pub mod RwLock
pub mod TextDevices
pub mod Kobjects
pub mod Lifecycle
pub mod Memory
pub mod SeqFile
pub mod Sysfs
pub mod Filters
pub mod KoolList
pub mod Tasks
pub mod Debugfs
pub mod Ports
pub mod Threads
pub mod Parameters
pub mod SysfsCore
pub mod Programs
pub mod Usb
pub mod ProcExample
