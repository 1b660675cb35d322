-- ===== src/Lib.antt =====
-- The P4 launcher, its client, and the agent in the VM.
--
-- The programs. OVS hands packets to P4 runtimes (uBPF processes) and shares 8 MB of memory with
-- the launcher and with an agent in the VM. The launcher (p4/p4launcher/p4l_server.c) keeps a
-- pool of runtimes: it starts children with fork, gives one to each session that OVS opens in
-- the session table, takes it back when the session is closed, and obeys a client
-- (p4/p4launcher/p4l_client.c) that sends text commands over a socket. The agent
-- (user/p4agent/p4agent.c) writes an encrypted report of the VM's TCP memory to the start of the
-- shared memory every three seconds, sums up the encrypted packet counters that OVS keeps in the
-- session table, and warns the users when more packets pass the VM's network stack than the
-- runtimes have counted.
--
-- The files.
-- - Common and its children: lists, integers and bits; the names that all modules share.
-- - CString: the functions of <string.h> and <stdlib.h> that the programs call; texts are lists
--   of bytes without the closing NUL. CString.Laws: decimal texts.
-- - Shm: the shared memory as a function from offsets to bytes, memcpy, the places of a struct's
--   members by the rules of the x86-64 ABI, and the layout by the agent's structs and macros.
--   Shm.Laws: copies and places. Launcher.Layout: the layout by the launcher's own structs and
--   macros; Layout.Agrees compares the two. Both programs map the device from its byte 4096 on.
-- - Launcher: p4/p4launcher/p4l_server.c. State has the static variables (Server) with the
--   number of fork calls so far and the events that other processes can see, newest first.
--   Runtimes is the pool, from add_runtime_entry to find_free_runtime_index. Sessions is
--   link_add, link_del and check_ovs_sessions. Commands is handle_client with its handlers, and
--   boot, which is main up to its loop; Commands.Reach is the loop as a step relation. Invariant
--   has the well-formedness of the state, Sessions.Linked and Sessions.Link the agreement of the
--   tables.
-- - Launcher.Promise: the launcher without its tables, as an allocator that knows which child
--   serves which session and how often each child waits; perform says which acts it allows. View
--   is what a state shows of that, Pool and Links follow the operations, Life every reachable
--   state, and Pids reads the log. Commands.Dialogue is an update followed by a status.
-- - Launcher.Shared: the session table as bytes. Stores and Clear are the single stores, Steps a
--   store next to the rows and a message of the agent, Looks check_session on the statics and
--   the memory together, with Copies, Counts what the agent sums up, and Runs the three programs
--   together: a step relation on the memory next to the launcher's state. Watch and Alarm follow
--   the counts from the launcher's table to the agent's warnings.
-- - Agent: user/p4agent/p4agent.c. Word has 64-bit words, Nic get_nic_stat and init_nic_stat,
--   Report the packing of the report in main, Frame encrypt_message, decrypt_counter and the sum
--   of the counters, Frame.Counters that sum against the counters as they were sealed, Detector
--   the window of check_p4_execution with its statics (Detector.Advance tells its readings by
--   how far the counters advance), and Rounds get_threshold, get_pages, the whole of
--   check_p4_execution, and one round of main's loop.
-- - Launcher.Setup: the launcher's daemonize_process, shm_open_and_map, setup_signal_handlers,
--   setup_server_socket, sigchld_handler and shm_unmap_and_close, and set_up, which is how main
--   calls them; Whole puts their laws together. Agent.Setup: the agent's daemonize, shm_start
--   and shm_end. The functions that end the mapping stand behind endless loops.
-- - Agent.Main: the two versions of the agent's main, with ENCRYPT (Runs) and without (Plain),
--   over any number of rounds.
-- - Former: the launcher that p4/p4launcher/p4l_server.c keeps under #ifdef OLD, on the same
--   state; Former.Same, Former.Stop and Former.Setup.Agrees compare it with the present one.
-- - Posix: a program as a function of what its system calls return, which returns or exits and
--   leaves a log of the calls; Posix.Effects: what the calls do to the process, to a server's
--   socket and to the things that have to be given back.
-- - Tester: user/p4agent/tester.c. Vsock: virtio-vsock/guest.c and host.c.
-- - Standins: p4/ubpf-test.c and p4/p4launcher/demo_app.c, which stand in for a runtime.
-- - Client: p4/p4launcher/p4l_client.c. Client.Delivery: its text on the way to the launcher.
-- Files named Tests, Examples and AlarmExamples hold runs, concrete states and the theorems at
-- concrete inputs.
--
-- How the model stands to the code. A function that changes statics takes the state and returns
-- the next one. `fork k` is what the call number `k` of fork returns, a parameter; the
-- hypotheses on it are that no pid is given out twice (a pid that is reused is outside the
-- model), that it does not return 0 to the launcher, and where something has to come back, that
-- it succeeds often enough. The result `none` of a launcher function means that it has not come
-- back: fork returned 0, so the process is the child, or the loop of start_children has used up
-- its fuel. Besides the loops of main that loop and the one of sigchld_handler are the only ones
-- without a bound in the source: for start_children the fuel bounds the calls of fork made in
-- one call, and it is enough when as many of them succeed as runtimes are missing; for
-- sigchld_handler it is enough when it exceeds the children that have ended. The children that
-- the launcher ends, and the events, are in the order of the calls. In Launcher.Shared a store
-- of an integer or of a packet count is one step. The pids -1 and the index -1 are the negative
-- integer and `none`. check_session is the body of the loop over the sessions; OVS writes
-- between two bodies. In the detector, counters are numbers modulo 2 ^ 64. AES-GCM of wolfCrypt
-- is the record Gcm: sizes are kept and a sealed text opens. What fgets delivers, what sscanf
-- reads, what read, write, socket, connect and system return are parameters.
--
-- In the set-up, `answer k` is what the call number `k` gives back: its result, errno after it,
-- and what it wrote through a pointer. A call has the arguments that differ between its uses.
-- Two calls of fcntl that set one flag are one call here. The calls that nothing depends on (log
-- lines, printing, sleeping, memset, sysconf) are left out. Log lines count in the agent's start
-- alone: without openlog before them, the first one opens a descriptor, which may be one of the
-- standard ones that `daemonize` has closed. The launcher calls openlog before it becomes a
-- daemon, which opens the connection at once, so that its descriptor is one of those it starts
-- with; its set-up writes no log line unless it exits. A dup2 that fails leaves its descriptor
-- closed. In the samples of virtio-vsock the buffer stands among the bytes around it, one for
-- each offset from its start, also for the negative ones.
--
-- Not modelled: log lines (but for the above) and sleeping; the children that end by themselves,
-- as the code does not note it either; the agent's init_wolf, its get_threshold for debugging
-- and its variant with ChaCha20, since they are calls of wolfCrypt or are not compiled together
-- with what is modelled here; the former launcher's sigchld_handler, which is the present one's
-- text; the scripts.
pub mod Agent
pub mod CString
pub mod Client
pub mod Common
pub mod Former
pub mod Launcher
pub mod Posix
pub mod Shm
pub mod Standins
pub mod Tester
pub mod Vsock
