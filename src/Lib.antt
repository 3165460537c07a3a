-- ===== src/Lib.antt =====
-- The gem5 wrapper connects gem5's memory ports to SystemC TLM-2.0. A packet of a gem5 core reaches
-- the slave port, which makes a transaction of it and sends it through the socket of that core; the
-- router takes memory transactions to the memory and others to the bus; the bus decodes an address to
-- a target; and a transaction that goes back into gem5 passes the master port, which makes a packet of
-- it. The slave port keeps the exclusion rule of TLM per core with the blocking packet helper, and
-- takes its payloads from the memory manager. Before any of that, the simulation control loads the
-- configuration, registers the ports that gem5 makes and knows which requestors belong to which core;
-- the transactors look their ports up there and bind themselves; and the wrapper makes and connects
-- the transactors, routers and the bus. gem5's events run inside SystemC by the event loop.
--
-- The files, and the code that they model:
--   MemoryManager  include/sc_mm.hh, src/sc_mm.cc: the pool of payloads.
--   Helper         include/blocking_packet_helper.hh, src/blocking_packet_helper.cc: which transaction
--                  blocks the request and the response channel of each socket, and which sockets owe
--                  gem5 a retry. Slots, Channels and Search hold the lemmas.
--   SlavePort      include/sc_slave_port.hh, src/sc_slave_port.cc, and what the port uses of
--                  include/sc_ext.hh, src/sc_ext.cc, include/sc_peq.hh and include/slave_transactor.hh.
--                  State: the fields, packets, payloads, packet2payload. Sockets: getSocketId,
--                  updateCorePortMap, initSocketMap, bindToTransactor. Request: recvTimingReq. Event:
--                  pec, nb_transport_bw, notify. Drain: recvRespRetry. Blocking: recvAtomic,
--                  recvFunctional and the snoops. Extension: how an extension is made and copied. The
--                  other files under SlavePort hold theorems.
--   MasterPort     include/sc_master_port.hh, src/sc_master_port.cc: nb_transport_fw, peq_cb,
--                  handleBeginReq, handleEndResp, recvTimingResp, recvReqRetry. Blocking:
--                  bindToTransactor, b_transport, transport_dbg.
--   Router         include/txn_router.h: ToMem, the transports, peq_cb, send_response, send_end_req,
--                  execute_transaction_process. Waiting: the process with a memory that waits.
--                  The other files under Router hold theorems.
--   Bus            include/simple_bus.h: PortMapping, decode, transport, transport_dbg.
--   Link           a socket of the slave port and the router behind it, composed: one transaction from
--                  gem5's request to END_RESP, in the order in which nothing else happens to the two;
--                  and, from Wire on, the two with the phases that are under way between them, where
--                  gem5, the two queues and the router's process act in any order and the port serves
--                  its other sockets meanwhile. gem5 is in timing mode there. The port frees a payload
--                  together with END_RESP, and it may be handed out again while the router still names
--                  it as its transaction in progress.
--   EventLoop      include/sc_module.hh, src/sc_module.cc: catchup, serviceAsyncEvent,
--                  serviceExternalEvent, eventLoop. gem5's event queue is a parameter. Simulate:
--                  simulate, wakeup, setupEventQueues.
--   SimControl     include/sim_control.hh, src/sim_control.cc: the registry, initCoreInfo, addCoreID,
--                  getCoreIDByRequestorID, and getExternalPort of the two handlers in
--                  src/sc_slave_port.cc and src/sc_master_port.cc. Flags: the loop over the debug flags.
--                  Lifecycle: the constructor, getInstance, end_of_elaboration, run.
--   Transactor     include/slave_transactor.hh, src/slave_transactor.cc, include/master_transactor.hh,
--                  src/master_transactor.cc: construction, the sockets' names, and
--                  before_end_of_elaboration.
--   Wrapper        include/gem5_wrapper.hh, src/gem5_wrapper.cc: the top that makes and binds the parts.
--   Control        include/sc_gem5_control.hh, src/sc_gem5_control.cc: Gem5System, Gem5TopLevelModule,
--                  Gem5Control. Manager: the calls of gem5's configuration manager.
--   Stats          src/stats.cc: statsDump, statsPrepare, statsEnable, statsReset.
--   Logger         include/sc_logger.hh, src/sc_logger.cc: CuttingStreambuf, logMessage.
--   Prelude, Tlm   shared helpers; the enumerations of TLM-2.0.
-- The files called Tests, RetriedTests, DrivenTests, WireTests and Runs hold runs on concrete inputs and applications of the theorems.
--
-- How state and calls are modelled. Each class is a record of its fields; an operation is a
-- function from the record to an outcome, which is a result or a stop. An assertion that fails
-- stops: assert is taken as switched on, as in a debug build. SC_REPORT_FATAL, SC_REPORT_ERROR,
-- panic, fatal and std::exit stop, and so does an exception that nothing catches. Pointers to
-- transactions, packets, payloads and ports are numbers, and a null pointer is none. A call that
-- leaves a class (to a socket of TLM, to gem5, to the reference count of a payload) is written
-- down in the field calls, newest first, and what the callee answers is an argument; only the
-- calls of a dump of statistics and the reports of the log stand in their order. Where gem5 may
-- call the port again before a call returns, inside sendRetryReq and sendRetryResp, the argument
-- retry is a function on the port. Other calls are taken not to call the same object again before
-- they return, and not to wait. In particular the memory's b_transport, which the router's process
-- calls, is taken to return without a wait, as that of a memory that only annotates its delay does;
-- behind a memory that waits inside it the router's queue may be served meanwhile. For that case
-- Router/Waiting has the round cut in two at the call. The reference count itself belongs to TLM; what
-- the model records is which references are taken and given back.
--
-- Numbers are natural numbers. The sums of 64 bits, in ToMem, notify and simulate, are taken
-- modulo 2^64, the counters of the memory manager and of a transactor's sockets modulo 2^32. The
-- loop of init has num + 1 rounds, which is its number for num below 2^32 - 1. The loop of
-- recvRespRetry runs on fuel: each round sends one blocked response, and one more round ends it.
-- The loop of eventLoop runs on fuel, too: each round serves one event of the present tick or
-- leaves the loop. A std::map is a list sorted by its keys. Names are strings where they are only
-- compared; the texts of the debug flags and of the log are lists of bytes, since the code walks
-- them. The rounds of sockets.init are the sockets that were asked for, and decimal numbers are
-- written with a round for each digit, for which the number itself is fuel enough.
--
-- Not modelled: gem5 itself and the libraries of SystemC and TLM; annotated delays, but for those that
-- a port takes from a packet or hands to an event; console output; the payload's data, which only
-- passes by as a pointer; the set-up calls of gem5 that answer nothing; and the destructors of
-- src/sc_gem5_control.cc. simulate waits once, so what it does before and after is a function each.
pub mod Prelude
pub mod Tlm
pub mod MemoryManager
pub mod Helper
pub mod SlavePort
pub mod MasterPort
pub mod Router
pub mod Bus
pub mod Link
pub mod EventLoop
pub mod SimControl
pub mod Transactor
pub mod Wrapper
pub mod Control
pub mod Stats
pub mod Logger
