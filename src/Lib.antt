-- ===== src/Lib.antt =====
-- Network programming exercises: a shell (nctu_np_project1), a chat server with that shell
-- (nctu_np_project2), an HTTP server with a console and filter commands (nctu_np_project3), and a
-- SOCKS4 server (nctu_np_project4).
--
-- The parts, and how they interact. A client of the chat server types lines; server.cpp selects a
-- readable descriptor and calls npshell for its user, which reads one line, counts the user's
-- number pipes down, takes the line apart, and runs built-in commands or forks processes that are
-- joined by pipes. The server in final has a process for each client: the rows of user are in
-- shared memory, and a semaphore guards the sections that change them. The console of project 3 is
-- such a client: it shows a shell's answers on a page, and the HTTP server runs it; the Windows
-- server is both in one process. The console of project 4 asks the SOCKS server to connect it.
--
-- Files and code:
--   Statements: statements of a C function over a state, which the two single-process shells share.
--   Rwg: nctu_np_project2/part2. Rwg/State is user.h, the globals of npshell.h, and a monad of its
--   statements (a statement ends, or npshell returns from within it, or C gives it no meaning).
--   Rwg/Pipes has PipeDead, the two close_0_rest_line_pipe functions and the loops over
--   num_pipe_vec; Rwg/Users the check_ functions and broadcast_msg; Rwg/Parse the token loop;
--   Rwg/Children what a child does before execvp, and checkFileInPATH; Rwg/Execute the parent's part
--   of the four branches that fork; Rwg/Builtins printenv, setenv, exit, batch, who, tell, yell and
--   name; Rwg/Shell npshell itself; Rwg/Server server.cpp. The files below Rwg/Invariant and those
--   named Laws prove.
--   Solo: nctu_np_project2/part1/npshell.h, the shell of one client on its standard input; the loops
--   over num_pipe_vec that it shares with part 2 are those of Rwg. Solo/State has the variables and
--   the number pipes, Solo/Batch fgets, batch and the source of a line, Solo/Parse the token loop,
--   Solo/Children and Solo/Execute the processes, Solo/Loop the infinite loop, by rounds.
--   Solo/Earlier is nctu_np_project1/npshell.cpp, the same shell without batch, and Solo/PathArray
--   nctu_np_project1/server.cpp, its first version, which keeps the directories of PATH in an array.
--   Multi: nctu_np_project2/final. Multi/Memory is user_3.h and the check_ functions of npshell_3.h;
--   Multi/Sections what the code does between sem_wait(clisem) and sem_signal(clisem), as lists of
--   accesses; Multi/Processes the interleavings of such sections, as a step relation; Multi/Mailbox
--   the messages in a row and the handler real_broadcast_msg, and in Race the handler against the three
--   statements of a sender;
--   Multi/Semaphore semaphore.h; Multi/Server np_multi_proc.cpp around the sections; Multi/Client the
--   infinite loop of npshell_3.h, as a Program (Multi/Program); Multi/Running the whole server, main
--   and the clients' Programs, interleaved access by access. Multi/Earlier has the messages between
--   users in nctu_np_project2/part3, an earlier version of that server.
--   Strings: strtok, atoi, strncpy, sprintf with the line as its format, and decimal numbers.
--   Socks: nctu_np_project4/socks_server.cpp. Socks/Request has parse_request, bytetoint, the
--   replies, and the request of nctu_np_project4/console.cpp; Socks/Firewall has firewall;
--   Socks/Session do_read and what follows it; Socks/Relay the reads and writes of HttpSession and
--   BindSession.
--   Acceptor: SockServer of nctu_np_project4/socks_server.cpp and TcpConnection of
--   nctu_np_project3/http_server.cpp, which accept, fork a child for each client and wait for their
--   children, as a step relation.
--   Console: nctu_np_project3/console.cpp, with regex_search and the loop over the query in
--   Console/Query, and main in Console/Main; Console/Connect has NpShellConnect of
--   nctu_np_project4/console.cpp, whose main is in Console/Main too. Http:
--   nctu_np_project3/http_server.cpp. Cgi: nctu_np_project3/windows_cgi_server/main.cpp, its pages in
--   Cgi/Pages and the sessions that share the browser's socket in Cgi/Sessions.
--   Filters: nctu_np_project3/command; Filters/Stdio has removetag and number of
--   nctu_np_project2/final/command/source_code.
--   Base: numbers, integers, arrays and lists. Tests: runs at concrete inputs.
--
-- How state is modelled. A World holds user[30] as a function of the index, name_pipe_record by
-- id, the environment, and the calls that were made of the system, the newest first. The
-- descriptors that pipe gives and the pieces that fgets reads are parameters (System); which
-- client connects and which descriptor is readable, with what read gives, is a list of arrivals.
-- The completions of the asynchronous calls of the SOCKS server are a schedule, and the outcomes
-- of resolving, connecting and sending a record (Network). The map that a console's regular
-- expression fills is a function from keys to values. The field `env` of User is spelled `path`.
-- An entry of PATH_array is the text that it points to, with the round whose line the text lies
-- in.
--
-- A Program of a client's process is a tree: it looks at the rows without the lock, enters a
-- section, renames its row, reads its socket, or asks the system. What a look gives is any memory
-- at all, so a theorem on a Program holds whatever the other processes do. In Multi/Processes a
-- section is its list of accesses, SEM_UNDO and the end of a waiting semop by a signal are steps of
-- the kernel, and what is written without the lock is a step too. In Multi/Running the state has the
-- Program that is left of each process; main fills a row access by access, and where no row is free,
-- space_ind may be any row.
--
-- Bounds. Every loop is structural: over tokens, over the 30 rows, over a list of pipes or of
-- bytes; bytetoint has its eight rounds. On fuel run `decimal`, with n + 1 for the number n, which
-- has at most that many digits, and the loop over a query, with one more than the query's length,
-- as each match takes three characters or more. The infinite loops of the shells of part 1 and of
-- final are given a number of rounds, and their theorems hold for every number; those of project 1
-- are modelled by their round. What C leaves undefined is a Fault of the shell (a NULL pointer, a
-- write behind an array, a bad format, an unset variable, a text behind its lifetime), `undefined`
-- of the firewall, `none` of the HTTP parser (substr throws), of the counter of number (int overflow)
-- and of the look-up of a file (an array is too short), and `overruns` of removetag0 and of a child.
-- What a dangling pointer of the SOCKS server reads is a parameter (Network.held). A char
-- is signed, as with gcc on x86: bytes from 128 on end a line, except in project 1, and 255 ends
-- removetag0.
--
-- Not modelled: select, passiveTCP, the socket calls by which the servers start, and the fork loops
-- of the servers of parts 1 and 3; shmget and shmat (row 30, which ids reach, is taken to be there);
-- the order in which buffered output appears; the programs that children run, and SIGCHLD in the
-- shells; int overflow but for the counters of the filters; a pipe call that fails; the logs on a server's own output; of part3 all but
-- the messages, as its code is that of final with fewer sections under the lock and shorter messages;
-- npshell_1.h and npshell_2.h, copies of parts 1 and 2.
pub mod Base
pub mod Strings
pub mod Statements
pub mod Rwg
pub mod Multi
pub mod Solo
pub mod Acceptor
pub mod Socks
pub mod Console
pub mod Http
pub mod Cgi
pub mod Filters
pub mod Tests
