-- ===== src/Lib.antt =====
-- icecream, a distributed compiler. Daemons connect to a scheduler, clients ask it through their daemon
-- for a compile server, and it gives each request to one of the daemons.
--
-- The parts, their files here, and the code that they model (paths from the repository's root):
--   * JobStat: scheduler/jobstat.cpp, the figures of finished jobs and their sums; JobStat/Window
--     is about the lists of the last figures that add_job_stats keeps.
--   * Job: scheduler/job.h and job.cpp.
--   * Queue: JobRequestsGroup, JobRequestPosition and the functions on job_requests of
--     scheduler/scheduler.cpp. Queue/Order, Queue/Contents and Queue/Walk prove its order, that no
--     request is lost, and that the walk over it is complete.
--   * CompileServer: scheduler/compileserver.h and compileserver.cpp; Methods has the decisions
--     about jobs, Connect the test of incoming connections.
--   * Algo: scheduler/scheduling_algo.cpp.
--   * Scheduler: scheduler/scheduler.cpp. Scheduler.antt is its state, the globals. Notify, End,
--     Requests, Speed, Pick, Dispatch, Events, Done, Lines, Prune and Activity are notify_monitors,
--     handle_end, the requests, server_speed and add_job_stats, pick_server, empty_queue, the logins
--     and statistics, handle_job_done, the control connections, prune_servers and handle_activity. A
--     function has the name that it has in the source. Live states the invariant that ties jobs,
--     queue and servers together; the Keeps below a module shows that its handlers keep it, and
--     Activity/Reach is about every order of connections, messages, pruning and dispatch.
--   * Comm: services/comm.cpp and services/comm.h, by which all parts talk to one another. Comm.antt has
--     numbers, texts and lists on the wire, Path the shortening of file names. Requests, Jobs, Hosts,
--     Done, CompileFile and FileChunk are the messages, a record and its fill_from_channel and
--     send_to_channel each; Msg is their common class with the types. Channel is MsgChannel: its state
--     and update_state; Channel/Receive is read_a_bit, wait_for_msg, get_msg and set_error,
--     Channel/Send wait_for_protocol and send_msg. The RoundTrip and Behind modules prove that what is
--     written is read again; Channel/Framing, Delivery and Stream do so for whole streams,
--     Channel/Negotiation for the protocol versions, Channel/Errors and FileChunk/Checks for input that
--     is not as it should be.
--   * Client: client/arg.cpp, by which a client decides whether a job may be remote, with the names of
--     compilers of services/util.cpp. Client/Options has the tables of options, Scan the variables of
--     analyse_argv and the longer branches of its loop, Scan/Loop all branches and the loop,
--     Analyse what comes behind it, Analyse/Finish the end and what main of client/main.cpp makes of
--     the answer. Scan/Rounds, Scan/Safe, Scan/Ends and Analyse/Remote have the proofs.
--   * Daemon: daemon/main.cpp. Daemon.antt has struct Client, its states and the search of Clients; Jobs
--     the state of struct Daemon and handle_end, Jobs/Handlers the messages about jobs, Jobs/OldRequest
--     handle_old_request, Jobs/Ends handle_compile_done and clear_children, Jobs/Environments what the
--     messages about environments do to clients. Order and First are about the search, Jobs/Accounts
--     about the slots, and its Reach about every order of connections, messages and jobs.
--   * Floats: floating point as a parameter. Base: what all files share. Tests: runs on small
--     inputs, and an instance of each theorem.
--
-- How the code is read:
--   * A CompileServer object is an entry of a heap, and a pointer to it is its key; a Job is an
--     entry of `jobs`, and a pointer to it is its id. `delete` erases the entry.
--   * `send_msg` answers what a parameter `Net` says, which may depend on all that was sent before;
--     the texts for people that some messages carry are left out, and so are traces.
--   * `unsigned int` and `unsigned long` wrap at 32 and 64 bits where the code counts or sums. An
--     `int` is an integer without bounds, read from 32 bits where it comes from a message.
--   * Time and random() are arguments. `float` and `double` are one abstract type with operations.
--   * The command line is a list of words, each a list of bytes. What access(2), stat(2) and the
--     compiler itself answer are parameters, the records Files and System of Client. The loop over the
--     words runs on fuel, one round for each word, which Client/Scan/Ends shows to be enough. Where it
--     reads on behind the end of argv, analyse_argv gives no answer.
--   * A Client of a daemon stands under its channel, whose address is the key of the map. The answers of
--     network, clock, load and fork are the record Host. handle_old_request runs on fuel, one
--     round more than there are clients to start, which Daemon/Jobs/Accounts/Rounds shows to be enough.
--   * The search loop of empty_queue runs on fuel: one more than the number of pending requests,
--     which Dispatch/Search shows to be enough.
--   * On the wire a text is the list of its bytes, and an `int` its 32 bits. What read(2) answers is a
--     list of results, and whether send(2) takes all is a Boolean; poll(2) times out when that list is
--     used up. The compression libraries are a parameter. The scheduler's own messages above are the
--     same classes, with texts as strings.
--
-- Not modelled: handle_scheduler_announce, the cutting of a command line into words, sockets, poll,
-- options, logging and daemonising; connecting and discovery in services/comm.cpp; of the client
-- all that runs compilers, sends files or keeps locks; of the daemon the cache of environments, the
-- processes and the load.
pub mod Base
pub mod Floats
pub mod JobStat
pub mod Job
pub mod Queue
pub mod CompileServer
pub mod Algo
pub mod Scheduler
pub mod Tests
pub mod Client
pub mod Comm
pub mod Daemon
