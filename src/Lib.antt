-- ===== src/Lib.antt =====
-- Verification of the unified routing framework: the AODV daemon, LA_Client_aodv/, the local
-- agent, LA/, with the messages between the two, lib/COMMON/, neighbour discovery, lib/ND/, the
-- modules of kernel_module/, and the libraries that talk to the kernel, lib/ODS/ and lib/FO/.
--
-- The daemon keeps a routing table, lists of requests that it has handled and of requests of its
-- own that wait for a reply, a list of destinations under local repair, a black list and a list of
-- timers. It receives route requests, replies and errors and questions of the local agent, changes
-- these, sends messages, asks the kernel for routes, and answers the agent.
--
-- The local agent forwards the kernel's requests for routes to a daemon and gives the daemon's
-- replies to the kernel, by netlink messages of the library ODS. Neighbour discovery keeps the
-- neighbours of each interface from the hello messages that it sends and receives, with timers of
-- its own. In the kernel, packets wait in a queue until a route to their destination is known, and
-- a cache keeps the times at which routes were last used. The library FO adds, deletes and reads
-- the kernel's routes.
--
-- Params is parameters.h and const.h. RouteEntry is rtable_entry.cc and RouteMap the std::map of
-- routingTable.h. RoutingTable is routingTable.cc: reading the table stands there, the updates
-- from messages in RoutingTable.Updates, neighbor_timeout_handler in RoutingTable.Timeouts, and
-- refreshEntries in RoutingTable.Refresh. Packets is the classes of rreq.h, rrep.h and rerr.h;
-- Requests is rreq.cc and rrep.cc; ErrorReports is generateRERR of aodv.cc with the setters of
-- rerr.h, ErrorReports.Wire the bytes of a route error, and Reports the rest of rerr.cc.
-- Blacklist, ForwardedRreqs, PendingRreqs and LocalRepair are blacklist.cc, fwRreqList.cc,
-- rreqPendingList.cc and localRepair.cc. TimerQueue and Node.Timers are timerQueue.cc. Node holds
-- the global variables of externDec.h. Daemon is aodv.cc: the messages and process_asl, with route
-- discovery in Daemon.Discovery and the timers' handlers and scheduleTimer in Daemon.Handlers, and
-- the sockets' handlers and the main loop in Daemon.Loop; the modules of Daemon.Sorted are the
-- lemmas on the order of the table under them. Daemon.Meeting takes a request from a node to its
-- neighbour and the reply back. LaMessage is lib/COMMON/la_message.cpp. Tests holds concrete
-- states and what the results say there.
--
-- Agent is la_select.cpp and la_serv.cpp of LA. Nd is the classes and globals of lib/ND, Nd.Timers
-- nd_timer_queue.cpp, Nd.Hello the bytes of the messages and Nd.Interface the methods of
-- nd_interface.cpp, and Nd.Discovery nd.cpp with scheduleTimer. Nd.Handshake delivers the messages
-- of one node to another. PacketQueue is kernel_module/ODS_kernel/packet_queue.c, KernelModule the
-- files around it, packet_judgment.c, info_transmission.c and ODS_kernel_module.c, with runs of
-- packets and messages in KernelModule.Steps, and RouteCache
-- kernel_module/route_check/route_cache.c. Netlink is the messages between the kernel module and
-- the library ODS, Ods is ods_userspace_netlink.cpp, and Ods.Answers puts the kernel module, the
-- library and the agent together, and System the daemon with them. Fo is fo.cpp: the requests
-- stand there, and the reading of routes in Fo.Routes.
--
-- A function of the model takes the state of its program, a Node, an Agent, an NdState, an Ods, a
-- PacketQueue or a KernelModule, and gives the new one. Requests to the kernel, messages, answers
-- to the agent and the system's timer are entries of a list, newest first, and the clock is its
-- field now, which stands still within a call. A call that can go wrong gives an Outcome: a fault
-- is an access through NULL, through end() or outside of an object, or a loop that does not end.
-- Numbers are natural numbers with the wrap-around of their C types written out; 2*hopCnt and the
-- sums of hop counts are int and do not wrap. A pointer or an iterator into the table is the key
-- of its entry, and an assignment through it is an update at that key.
--
-- The search loop of the black list is on fuel, since it may not end; one round decides it. The
-- loop of scheduleTimer is on fuel too, in the daemon and in neighbour discovery, since handlers
-- set new timers, and so is the loop of the agent over its descriptors, since its body changes
-- their list. The loops that empty the queue of packets are on fuel; in a run the fuel is one more
-- than the count of the queue. Nd.Discovery.Runs, Agent.Pass, PacketQueue.Release and
-- KernelModule.Steps show which fuel is enough. Everything else is structural recursion.
--
-- What FO_query_route_idle_time answers is a parameter of refreshEntries, any int, since the times
-- that it is given come from another process; RouteCache.Query models the query itself, on the
-- entries of the cache in place of the text in /proc, with the two clocks that it compares. What the memory of a fresh object holds, where the code
-- reads it, is a parameter of the type Uninitialised; what select, accept, recv, read_from_sock
-- and what the system says of sockets and interfaces is one too. ODS_get_route_request is
-- modelled, and a pass of the agent's main loop takes its result as a parameter. The macros of the
-- system's headers that align and measure netlink messages are parameters of Fo, with their
-- documented values as a hypothesis; an attribute is its kind with a word, and a request keeps
-- where each was stored. That the kernel has no memory for a request is an argument of the hooks. Not modelled are the
-- set-up of sockets, signals, threads and the reading of configuration files, a signal in the
-- midst of a handler, whether the kernel obeys, failing allocations outside of the kernel modules,
-- the contents of buffers that the code writes past their end, the set-up of the tunnel's device
-- in lib/ODS, the registration of hooks, timers and files of the kernel modules, the demonstration
-- client and the test programs.
pub mod Prelude
pub mod Params
pub mod LaMessage
pub mod RouteEntry
pub mod RouteMap
pub mod Packets
pub mod Blacklist
pub mod ForwardedRreqs
pub mod PendingRreqs
pub mod LocalRepair
pub mod TimerQueue
pub mod Nd
pub mod Agent
pub mod PacketQueue
pub mod Netlink
pub mod KernelModule
pub mod Ods
pub mod Fo
pub mod System
pub mod RouteCache
pub mod Node
pub mod ErrorReports
pub mod RoutingTable
pub mod Requests
pub mod Reports
pub mod Daemon
pub mod Tests
