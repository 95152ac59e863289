-- ===== src/Lib.antt =====
-- Models of the C programs of this repository, and theorems about them.
--
-- Each program is modelled apart; they share only Common (the library's names, Boolean tests, lists
-- over native numbers, tables of processes), Semaphore and Ipc (the calls of System V semaphores, and
-- what both programs that use them do in main), Memory (blocks of bytes and string.h), ProcFs (what a
-- module holds of the kernel), and the scanf of Datagram.
--
--   sem_5/lab3_1/main.c      ProdCons    producers and consumers over a ring of five cells
--   sem_5/lab3_2/main.c      ReadWrite   readers and writers of one byte
--   sem_6/lab4_2/main.c      Fortune     a /proc file that keeps fortunes in one page
--   sem_6/lab4_seq_file/     SeqFile     a /proc file that queues messages
--   sem_6/lab8/vfs_md.c      SlabFs      a file system that gives out objects of a slab cache
--   sem_6/lab6_2/            Server      a server that waits with select for up to five clients, and
--                                        its client (Server/Client.antt)
--   sem_6/lab1/              Daemon      a daemon that runs once (Daemon/Older.antt: comment.c)
--   sem_6/lab5/              Streams     streams that share a descriptor or a file
--   sem_5/lab2/prog4.c, prog5.c
--                            Pipe        two children that send their parent messages
--   sem_5/lab2/prog1.c, wait.c, prog3.c
--                            Forks       a parent and two children, and the wait for one another
--   sem_6/lab3_1/md.c        TaskList    a module that prints the list of tasks
--   sem_6/lab6_1/            Datagram    a client that sends words, a server that prints them
--   sem_6/lab9_1/md.c, sem_6/lab9_2/md.c
--                            Interrupts  modules that count interrupts and defer work
--   sem_6/lab4_1/main.c      ProcReader  a program that copies what /proc/self tells
--   sem_6/lab2/              Walk        a walk over a directory tree (Walk/Older.antt: comment.c)
--
-- ProdCons and ReadWrite: `Shared` holds the semaphores and the shared bytes, `Pc` names the line or
-- the call that a process executes next, and `step` executes it; `none` is sleep in semop. In their
-- System modules `Step` lets any of `n` processes move, and `Reach` is what main can reach, for any
-- number of processes and any mixture of the two kinds. The operating system's calls are the
-- parameter `SemApi`, and `IsSystemV` states what their manual pages promise: semop performs its
-- array in order, all or nothing, waits or fails with EAGAIN as the flags say; SETVAL and GETVAL set
-- and read. It asks for that only below SEMVMX, which the programs do not reach: in ReadWrite the
-- number of processes is assumed to be below it. SEM_UNDO is modelled for ProdCons: in ProdCons/Undo
-- each process has its semadj values, semop fails when one would leave its range (Semaphore/Undo), and
-- an exit undoes them; that makes no difference until 32767 letters are written. ReadWrite leaves it out,
-- and is about runs in which no semadj value leaves its range. Their Launch modules have main itself,
-- from semget to the clean-up, over any results of its calls (Ipc), those of semctl in ProdCons too; the
-- loops over fork and wait are the same.
--
-- Fortune and SeqFile: the page is a list of bytes, and an access outside it is `none`. PAGE_SIZE is
-- an argument, and copy_from_user is a parameter that says which bytes arrive and how many are left.
-- int, unsigned int and unsigned long keep their wrap-around. The results of vmalloc and of the
-- calls that make /proc entries are arguments (ProcFs.Calls), and so is whether seq_printf has room for a
-- line.
--
-- SlabFs: the results of kmalloc, kmem_cache_create, kmem_cache_alloc, register_filesystem,
-- new_inode and d_make_root are arguments, and so is the function mount_nodev, of which IsMountNodev
-- states what is documented. Freeing an object that the module does not hold, or destroying a cache with
-- live objects, is `none`.
--
-- Server: Answers says what select, accept and recvfrom answer in one round, and the state holds
-- which descriptors of the process are open. A store through NULL or outside buf is `none`. Rounds
-- has the run of main, under the documented rule that a new descriptor is one that was not open. Talks
-- has the rounds in which given bytes come on one connection, with the others free, and Talks/Client
-- puts the client at its other end.
--
-- Walk: the calls of the file system are the parameter FileSystem. Walk/Trees.antt says what they must
-- answer for a tree to stand at a name, and lists the tree; dopath is compared with that listing. Its
-- fuel bounds the nesting of directories, and any fuel above that of the tree is enough.
--
-- Daemon: the answers of the calls are the parameter Calls; the state holds the descriptors of the
-- process, the bytes of LOCKFILE, the lines logged, and whether openlog was called before each. What
-- umask, setsid and the signal masks do to the system is not modelled. The int that counts in the loop
-- over close overflows at 2 ^ 31, which is an outcome of its own.
--
-- Streams: a stream is its buffer, and a descriptor is the bytes still to come from it. main1.c and
-- main2.c loop on fuel, and two rounds more than the file has bytes are enough. For th1.c, th2.c and
-- th3.c Reach has the states that main and the thread reach in any order of their lines.
--
-- Pipe: Reach has the states that the parent and its children reach in any order of their lines, with
-- any results of their calls. A process that sleeps in wait or in read has no step.
--
-- ProcReader: what the calls find is an argument, and a null stream or an access outside the buffer is
-- `none`; main ends in a crash then. Listing says what read_fd leaves of one target behind another. The loop of read_file is on fuel; two rounds are enough for every
-- file.
--
-- Forks: System has the parent and the children, and Steps any number of their lines in any order. A
-- process that sleeps in wait has no step. TaskList: the loop is on fuel, and more rounds than the list
-- has tasks behind init_task are enough.
--
-- Datagram: the server is a function of the events that it meets in recvfrom, datagrams among them, and
-- the client is one of what is typed. A datagram arrives whole and once.
--
-- Interrupts: Reach has the states of the module when interrupts come, and the deferred function runs,
-- between any two calls of md_init and md_exit; `arrives` says at which of them an interrupt may come.
-- What is scheduled without a queue, or uninitialised, is a fault.
--
-- Other loops are structural, and endless loops are runs of any length.
--
-- Not modelled: the output of sem_5/lab3_1 and sem_5/lab3_2 except for the letters; what the kernel
-- modules print, but for the list of TaskList and the counters of Interrupts; sem_5/lab1, two processes
-- that print for ever; and the modules of sem_6/lab3_2, which print one string that the first of them
-- exports.
pub mod Common
pub mod Semaphore
pub mod Ipc
pub mod ProdCons
pub mod ReadWrite
pub mod Memory
pub mod ProcFs
pub mod SeqFile
pub mod Fortune
pub mod SlabFs
pub mod Walk
pub mod Server
pub mod Daemon
pub mod Streams
pub mod Pipe
pub mod ProcReader
pub mod Interrupts
pub mod Datagram
pub mod Forks
pub mod TaskList
