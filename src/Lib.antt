-- ===== src/Lib.antt =====
-- The programs of a course in system programming, each in a directory of its own. They share no code,
-- but all keep a state through system calls whose results they do not choose: those are parameters of
-- the definitions, or steps that may happen in any order.
--
-- Pstree, hw3/part2.c: a table of processes is collected (Collect: GetProcessesDirect, GetProcesses,
-- uid2user), the root is looked for (Root: GetRootPid, get_pid_index), the links parent, child and
-- sister are made (Make: MakeTree), processes are marked (Mark: MarkChildren, MarkProcs), links to
-- unmarked ones are dropped (Drop: DropProcs), and the tree is printed (Print: PrintTree). Options
-- is main. Table has struct Proc, an index of -1 being `none`; Forest is the tree that the links of a
-- table unfold to, in which the proofs about the walks are stated. /proc, getpwuid, getopt and the
-- width of the window are parameters.
--
-- Driver, hw12/demo.c: Message is what device_open prints into the buffer, Read is device_read, and
-- System is the step relation of processes that open, read, write and close the device in any order,
-- where device_open is two steps. Client is client.c at the device, with demo_init and demo_exit.
--
-- Xfr, hw9/54-1: svshm_xfr_writer.c and svshm_xfr_reader.c as a step relation on the semaphores, the
-- shared segment and the two programs, with reads of any length up to the block's and errors of read
-- and write as steps; Sems is binary_sems.c. WriterMoves and ReaderMoves show that the
-- invariant of Invariant is kept, and Safety has the theorems; Signals has the handlers of SIGINT and
-- SIGSEGV.
--
-- Svmsg, hw8/46-2: serveRequest of svmsg_file_server.c and the receiving loop of svmsg_file_client.c,
-- with the layout of the message that the two declare and the system call reads. msgsnd and the blocks
-- that read gives are parameters. Server is the loop of the server's main and its signal handler, on any
-- sequence of requests, interruptions, errors, ends of children and signals; fork is taken to succeed.
-- Client is main of the client, with what its calls give as parameters.
--
-- Pmsg, hw9/52-3: serveRequest of pmsg_file_server.c and proc_resp of pmsg_file_client.c, where mq_send
-- and mq_receive are taken to succeed. Server is main of the server, whose loop is the one of
-- Svmsg.Server for requests of another type, with the children that answer; Client is main of the
-- client, with what its calls give as parameters.
--
-- Seqnum, hw8/44-6: the loop of fifo_seqnum_server.c over its requests, with the results of open and
-- fcntl as parameters (Ranges). Clients is main of fifo_seqnum_client.c and of dos_client.c, with what
-- their calls give as parameters. Rounds has them at the server, with what its read, open, fcntl and
-- write give at each of them, where open waits for a client that does not open its FIFO, and Visits
-- what they get.
--
-- Shell, hw4/part2: Strtok is the C library's strtok over a set of delimiters, by what it documents.
-- Args is getArgs and pipe_spliter of parser.c, Redirect is redirect.c on the array of arguments,
-- Builtin is builtin.c, Pipeline is the loop of run_command.c that forks a process for each command,
-- and Turn is one round of main in shell.c, from the bytes of the input to the processes that are
-- started (Turn/Started composes all of them). getArgs writes outside of its block at 512 arguments;
-- behind that point the behaviour is undefined, and the turn has a result of its own for it. Wait is
-- the parent that waits for the child. fork, pipe and dup2 are taken to succeed, and the file that
-- redirect opens is given by its name. What execvp makes of the arguments is not modelled.
--
-- Sh, hw2: the first shell, whose parse is not in the repository and is a parameter. Background has the
-- theorems on is_background.c and on the wait of run_command.c.
--
-- Walk, hw3/part1.c and hw3/part3.c: the walks over /proc; the directories, files, links and users are
-- parameters. Numbers is the loop that both share, Status is part1.c and Links is part3.c.
--
-- Upper, hw5/1/main.c: the parent, the child and the two pipes between them as steps, where every read of
-- the input gives a block of any length up to the page's. Flow has the invariant, and Progress the
-- theorems. Errors of the calls are not modelled.
--
-- Speed, hw7/22-3/sig_speed_sigsuspend.c: the two processes that signal each other as steps, with the
-- blocked signal that is pending at most once. Run has the theorems. hook.c, which replaces
-- sigsuspend, is not modelled.
--
-- Sm, hw9/49-1: SM.c and main.c over a store of files by name, in which a shared mapping is its file;
-- mmap, mremap and ftruncate are taken to succeed. test/2 has the same SM.c.
--
-- Copy, hw1: tee (hw1-1.c) and cp (hw1-2.c) over the same kind of store, as loops over bytes.
--
-- Dict: Convert is hw4/part3, where convert.c makes a file of records out of a text and lookup1.c
-- searches it; the text is given by its lines; Ask is main.c of it. hw11/part1/lookup5.c, my_connect
-- and lookup on the table that is mapped into memory; parts 2 and 3 of hw11 have the same text. Remote
-- has the servers usock_server.c, isock_server.c (the same function) and udp_server.c, the lookup of
-- lookup7.c, lookup8.c and lookup9.c, and the loop of main.c, with the loops of the servers in
-- Servers; a message is taken to come whole in one read. The bytes behind a NUL and what a field held
-- before are parameters.
--
-- Broadcast, hw10: producer_job and consumer_job as steps on the shared slots; Collect has get_argv and
-- collect_child of main.c, where each wait gives the number of a signal or fails. The text in a slot and
-- the way the signals take are not modelled.
--
-- Watch, hw6/1: the loop of main.c over the bytes of one read of inotify events, with add_watch_file and
-- concat of lib.cpp. Decode has the events in the bytes, and Moves what is printed of a rename and of a
-- new file; Walk is the start of main, over the paths that nftw comes to, and the text for debugging.
-- inotify_add_watch is a parameter; a directory's name is taken as it was when the event came.
--
-- Busy, hw4/part1: the dispatch of main.c on the name of the program, and the commands of lib.c as what
-- they print or hand to the shell.
--
-- Popen, hw5/2: my_popen and my_pclose of popen.c over the descriptors and streams of a process, with
-- the table of dict.cpp (Table). Streams and Calls have the invariant of the process that calls them,
-- Dropped and Child the descriptors of the child, Runs what a process that opens and closes streams
-- comes to, and Command the functions of driver.c and fmtcmd.cpp that run a command, with the bound of
-- the text that they make, and Pages their loop over what it prints. pipe, fdopen and execl are taken
-- to succeed; the order in which children end, and the signals that interrupt waitpid, are parameters.
--
-- Exam: the threads of test/3 (reader.c, writer.c, main.c) as steps, one for each call and each access to
-- what they share. Invariant and Ends have what is kept in every order of the steps, Progress where they
-- stop, and Rounds the run in which they take turns. Alarm is test/1/my_alarm.c over the timer.
--
-- Sysv, hw7/22-4: the five operations of systemv.c on the mask and the dispositions of a process (Masks),
-- and Main, which is main.c, where what becomes of the child depends on when the signal comes.
--
-- Nonblock, hw8/44-7: nbio.c and nbopen.c at a FIFO, whose writers and bytes are given.
--
-- Prelude has the names that all share: tests on numbers, lists with native indices, C strings as lists
-- of bytes, and C integers. A walk along links takes fuel, and `none` is a walk that does not end. Where
-- a table is linked as MakeTree links it, the length of the table is enough for a walk along sisters,
-- and more than twice the size of a forest and one for a walk through it; the theorems on the walks say
-- so with their result. An unsigned or signed variable of 32 bits that the code lets grow is a word,
-- with its wrap-around written out.
--
-- Not modelled: the copies of the library of "The Linux Programming Interface" (error_functions, get_num,
-- tlpi_hdr), which the programs only call; hook.c of hw7/22-3; and main.c of test/1, which prints, sleeps
-- and calls my_alarm. test/2 has the text of hw9/49-1, and
-- test/3/ref is a copy of the transfer of the book.
pub mod Prelude
pub mod Pstree
pub mod Driver
pub mod Xfr
pub mod Svmsg
pub mod Seqnum
pub mod Shell
pub mod Sh
pub mod Walk
pub mod Upper
pub mod Speed
pub mod Sm
pub mod Watch
pub mod Busy
pub mod Copy
pub mod Dict
pub mod Broadcast
pub mod Sysv
pub mod Pmsg
pub mod Popen
pub mod Exam
pub mod Nonblock
