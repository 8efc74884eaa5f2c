-- ===== src/Lib.antt =====
-- newbee, a C++ framework for servers, as definitions and theorems.
--
-- The program: mylib/heart_beat keeps elements (connections) under heart beat, mylib/rpc frames
-- messages on connections and calls the functions that are registered for them, mylib/log writes
-- lines to files, and mylib/utility has the signal handler and the pool of io services. A
-- connection (rpc_connecter) hands what it reads to its protocol object (rpc_common_conn_protocol),
-- which posts each message to an io service for rpc_t, and tells the monitor, which is a heart beat
-- service, when a connection opens, reads and closes. The heart beat service owns an element
-- manager, and the manager a list over nodes from a pool.
--
-- Base and its children: the names that all modules share, Boolean tests on the native numbers,
-- lists. Memory: runs that can fault, and what it is that a run returns. Status: the int results.
--
-- HeartBeat.NodeList is mylib/heart_beat/heart_beat_list.h: the list object with the heap of its
-- nodes; push_front, push_back, pop_front, pop_back, erase, front, back and empty keep their names.
-- A read or write through NULL or a dangling pointer is a fault. Segment says what a list stands
-- for; Push, Pop, Relink, Erase and Foreign are about the operations.
--
-- HeartBeat.ElementMgr is mylib/heart_beat/heart_beat_element_mgr.h: the record Mgr has the fields
-- of heart_beat_element_mgr_t, with the map as a function and the calls of the callback as a list,
-- and each operation keeps its name. Spec is the manager as a list of entries; Rep and Implements
-- relate the two; Evict, Add, Update, Delete and Timeout refine the operations (Trimming is about
-- the end of a list that is over); Draining and Clear are about the three that empty the manager;
-- Expiry is about which entries time out; Constancy and History are about sequences of calls.
--
-- HeartBeat.Service is mylib/heart_beat/heart_beat_service.h: the tasks that are posted and the one
-- thread that runs them. stop and get_all_element_and_clear are cut where they wait for the thread.
-- Runs, Replay, Progress, Settings and Stop are about its life.
--
-- Rpc.Message is mylib/rpc/rpc_msg_head.h, rpc_utility.h and rpc_utility.cpp (Fields and Repacking
-- are about the two functions called compress_msg, Packing puts the functions of zlib_util in);
-- Rpc.Protocol is mylib/rpc/rpc_common_conn_protocol.h and .cpp (Feed tells it byte by byte,
-- Rounds and Loop are about the loop of on_read, Chunks, Stream and Messages are about streams,
-- Reports and Broken about the report that a connection is gone); Rpc.Connecter is
-- mylib/rpc/rpc_connecter.h and .cpp (Wire and Writes are about its queue, Connecting about
-- sync_connect); Rpc.Dispatch is mylib/rpc/rpc.h and .cpp (Delivery goes from async_send to the
-- registered functions); Rpc.ConnMonitor is mylib/rpc/rpc_conn_monitor.h and .cpp (Closing is
-- about what it closes); Rpc.Acceptor is mylib/rpc/rpc_acceptor.h and .cpp (Accepts is about the
-- connections); Rpc.Server is mylib/rpc/rpc_server.h (Serving and Listening go from the pool to
-- the end of the server, Calls from async_call over the queue to the registered functions).
--
-- Log is mylib/log/log_impl.h and .cpp, with Log.Opening for the setters, open and close, and for
-- mylib/log/log.h and .cpp (Filter and InitLog are about which lines are logged, FirstFree,
-- Names and Rotation about the files). Utility.SignalHandler is mylib/utility/signal_handler.h and
-- .cpp
-- (EventLoop); Utility.SignalService is mylib/utility/signal_service.h (Terminating);
-- Utility.IoServicePool is mylib/utility/io_service_pool.h and .cpp (Turns). Utility.ZlibUtil is
-- mylib/utility/zlib_util.h and .cpp, over the parameter Utility.Zlib: Chunks and Memory are about
-- the input and the buffer, Compress, Buffer, InflateLoop and Uncompress about the three
-- functions, Mismatch about the two formats, and Shift, ShiftDeflates and ShiftInflates are a zlib
-- to run them with. The modules called Examples hold the data of examples and one run of each
-- theorem.
--
-- Numbers are natural numbers with the wrap-around of unsigned long and size_t (2 ^ 64) written
-- out. Times and the sizes and serial numbers of the log are taken to fit their types. A byte is
-- read modulo 256, and the header of a message is the memory of a packed struct on a little-endian
-- machine.
--
-- Loops run on fuel: the loops of the manager need more than there are elements, and the loop of
-- on_read more than twice the number of bytes, since a message without a body takes a round that
-- reads nothing. The loops of zlib_util need a round for each chunk of 2048 bytes, and within a
-- chunk more calls than zlib can owe output for; the search for a file name needs more rounds than
-- the number of some file that is not there.
--
-- Parameters: the clock, the answers of the node pool and of the file system, the sockets, sigwait,
-- zlib, the two functions that Rpc.Message packs with (whatever they do), the unpacking of message
-- types, the virtual functions of derived classes, and rpc_connecter's sync_close_i and
-- set_write_state, which the repository declares and does not define.
--
-- Not modelled: the threads as such and the text of lines in the log, singletons
-- (mylib/utility/singleton.h, the one object of a class, by locks), and the gateway, whose
-- class has no members and whose main function returns at once.
pub mod Base
pub mod HeartBeat
pub mod Log
pub mod Memory
pub mod Rpc
pub mod Status
pub mod Utility
