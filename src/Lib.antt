-- ===== src/Lib.antt =====
-- libevent_cpp: a model of the C++ wrapper of libevent.
--
-- The program is a thin object layer over libevent. A ConCom is one socket connection over a
-- bufferevent; it cuts the bytes that arrive into messages and frames those that are sent. A
-- ClientCon is one that connects by itself. A Listener accepts sockets, and has a BaseConMgr make
-- and own a SvrCon for each; a connection that ends is posted to the manager, whose repeating Timer
-- deletes it later. Beside these stand a Timer over one libevent event, an http server and client,
-- a log, the event loop and the standard input.
--
-- Where the parts are, with the code that each file translates:
-- - Bytes: include/connector.h, auto_hton and auto_ntoh, and a uint32_t in memory.
-- - Env: what connector.cc and listener.cc take from libevent, as operations with their laws.
-- - Con: include/connector.h and src/connector.cc, ConCom's fields, Free, SetSocketInfo, SetAddr,
--   DisConnect and conn_event_callback. Con/Read: readcb and conn_read_callback_no_cp. Con/Send:
--   SendPack, SendData, Setwatermark, Flush and MsgPack::Set. Con/Client: ConnectInit,
--   ConnectByAddr and TryReconnect, with Con/Connect.
-- - Con/Frames and Con/Framing are the reference view of the wire format, with no buffers and no
--   state. Con/Serving says what a class may promise of its OnRecv, as a contract; Con/Receive,
--   Con/Delivery and Con/Session compare the callback with the reference view under any contract,
--   and Con/Keeping under that of an OnRecv which leaves the connection open. Con/Sending does so
--   for the sending methods, Con/Sending/Raw for bytes that carry no header;
--   Con/Dropping has an OnRecv that frees the bufferevent it is called from; Con/Deleting has the
--   deletion of the object inside its own virtual methods; Con/Bound says how much stays in the
--   buffer; Con/Raw has the raw mode; Con/Transmission joins both ends.
-- - Con/Valid and Con/Methods: the phases of a connection object, and any sequence of calls.
-- - Timer and its children: src/timer_mgr.cc, include/timer_mgr.h.
-- - ConMgr and its children: BaseConMgr of src/listener.cc and include/listener.h, and the
--   identifiers of SvrCon. ConMgr/Abstract: its specification, in which no order exists;
--   ConMgr/Cleaner: the manager with its timer; ConMgr/Closing: Foreach that unregisters all.
--   Listener: SvrCon and Listener of the same files.
-- - Listener/System and its children: a server as a whole, its events one after the other.
-- - Samples, Samples/Server, Samples/Client: samples/base/utility.cpp, samples/server_prj/main.cc and
--   samples/client_prj/main.cc. Samples/Echo fills the contract for the server, Samples/Meet for the
--   client; Samples/Talk, Samples/Ending, Samples/RoundTrip and Samples/Meet join these with the
--   library's parts, and Samples/Texts has their strings.
-- - Trials, Trials/Flood: test/combine2/server.cc and client.cc. Trials/Counting: MyConnectClient of
--   test/combine/echo_client.cc. Trials/Mass: MyConnectClient of test/client_prj/main.cc, whose
--   events are ConnectInit, the event callback, a message of the peer and the time of its timer.
--   Trials/Recon: ClientReconByDel and ClientReconByDelCtr of the same file, and Con/Alone: a
--   connection object whose bufferevent is the only one.
-- - Http, Http/Svr, Http/Client: src/http.cc and include/http.h. Http/Drain: their two loops that
--   copy a buffer out.
-- - Log, Log/Lines: src/log_file.cc and include/log_file.h. Loop: src/lev_mgr.cc and
--   include/lev_mgr.h. Stdin: src/stdin.cc and include/stdin.h.
-- - Prelude: shared names, Boolean tests, lists, C integers and the outcome of a call.
-- - Examples: each theorem with hypotheses, at a concrete input.
--
-- An object is a record of its members; a method takes the object and returns it with its result.
-- The outcome of a call is `ok`, or a fault: a use of freed memory, a null pointer read, an access
-- past the end of an array or a message, or an exception that nothing catches. The virtual methods
-- of a derived class are functions, the fields of `Handlers`, over the object and the user's own
-- state. The bufferevents of the heap are a function from addresses, `none` where nothing is
-- allocated. libevent 2.1.8 finalizes a bufferevent that was freed only in its event loop, when the
-- callback under way has returned: until then it is among the `dying` ones, which a stale pointer
-- still reaches. A uint32_t wraps at 2^32 and an int is the low 32 bits in two's complement; the host
-- is little-endian. Pointers that the code tests for null are options.
--
-- The loop of conn_read_callback_no_cp takes the number of bytes at hand and one more as fuel, which is
-- enough since each round that goes on has drained five bytes at least. The two http loops, which
-- take 128 and 1000 bytes at a time, have the same fuel. The other loops are recursive over lists.
--
-- Not modelled: the lines that the other classes log; the copy of the log under samples/base, which
-- no build file compiles; callbacks that only log; libevent itself, which is a parameter.
pub mod Prelude
pub mod Bytes
pub mod Env
pub mod Con
pub mod Timer
pub mod ConMgr
pub mod Listener
pub mod Samples
pub mod Trials
pub mod Http
pub mod Log
pub mod Loop
pub mod Stdin
pub mod Examples
