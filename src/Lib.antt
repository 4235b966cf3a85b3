-- ===== src/Lib.antt =====
-- Verification of networking_cpp_intro: the client and server library in include/custom_net_lib, the
-- chat server and client in src, and the servers and clients under other_ressources that hold logic of
-- their own.
--
-- The program. A server and its clients exchange messages over TCP through Boost.Asio. A message
-- (net_message.hpp) is a header, an identifier and a size, and a payload that values are
-- serialised into. A connection (connection_net_interface.hpp) is one end: it runs a handshake,
-- reads messages into a queue that its owner has given it, and writes the messages of its own out
-- queue one after the other. Both are thread safe queues (net_ts_queue.hpp). The server (net_server.hpp)
-- makes a connection for each client, hands the messages that came in to `onMessage`, and sends to
-- one or to all clients; the chat server overrides its handlers.
--
-- The parts:
--   * Message: include/custom_net_lib/net_message.hpp. `push` and `pull` are the operators <<
--     and >> on a payload, kept as the bytes of its memory, four to an element. Message/Wire is
--     the form in which WriteHeader and writePayload put a message on the socket.
--   * TsQueue: include/custom_net_lib/net_ts_queue.hpp. The methods are functions on a list;
--     TsQueue/Wakeup runs `wait` against `pushBack` in interleaved steps.
--   * Connection: include/custom_net_lib/connection_net_interface.hpp. Each method that starts
--     asynchronous work adds an entry to `pending`, and each lambda is a function of the state
--     (`on_read_header` is the handler of ReadHeader, and so on). Connection/Channel puts two of
--     them at the ends of one stream. Connection/Steps is the environment: any pending entry
--     completes next, with an error or not, with any bytes read; a write that fails may have put
--     a front of its buffer on the socket.
--   * Server: include/custom_net_lib/net_server.hpp. Connection objects live in a store, a
--     shared_ptr is a place in it, and the virtual methods that change state are a record of
--     functions. Server/Running has Start, Stop and the thread of the I/O service, Server/Trust
--     the validation at all connections.
--   * ChatServer: src/custom_server.cpp, an instance of that record. ChatServer/Numbers accepts
--     clients one after the other, ChatServer/Program is main beside the thread of the I/O
--     service.
--   * Client: include/custom_net_lib/net_client.hpp. One connection and the queue of received
--     messages; `on_io` is the I/O service, which completes nothing once it has been stopped.
--   * ChatClient: src/custom_client.cpp. What the keys send and what the loop prints, and in
--     ChatClient/Program the thread that reads the keys beside that loop.
--   * EchoServer:
--     other_ressources/async_io_with_cpp/tcp_echo_server_circularbuffer_multithreaded.cpp. The
--     circular buffer, whose counters only ever grow and wrap as `size_t`, the session, in
--     EchoServer/Contexts the group of I/O services, and in EchoServer/Accepting the server that
--     takes a service of it for each accept, and in EchoServer/Program main.
--   * HttpServer: other_ressources/boost_beast/src/async_http_server.cpp. The answer to a
--     request, with `iequals` of Boost.Beast and the opening of files as parameters, the
--     session, in HttpServer/Listening the listener, and in HttpServer/Program main with its
--     threads.
--   * ChatRoom: other_ressources/async_io_with_cpp/simple_tcp_chat_server.cpp. The sessions of a
--     room and the posts to all of them; ChatRoom/Serving lets its reads and writes complete in
--     any order, and ChatRoom/Ordering forgets the order of the set of clients.
--   * EchoDecoupled:
--     other_ressources/async_io_with_cpp/tcp_echo_server_read_write_decoupled.cpp. A session
--     that reads into one buffer and writes from another.
--   * SyncHttp: other_ressources/boost_beast/src/simple_http_server.cpp. The answers of the
--     synchronous server and the loop of a session, over the rounds that are given, and in
--     SyncHttp/Program main.
--   * SslServer: other_ressources/boost_beast/src/ssl_http_server.cpp. The answers, the session
--     with its handshake and shutdown, and the listener of the server over TLS.
--   * TerminalServer: other_ressources/async_io_with_cpp/simple_terminal_server.cpp. The table
--     of commands and a session with its buffer of bytes that came and its queue of replies, and
--     in TerminalServer/Serving the server.
--   * EchoBytes:
--     other_ressources/async_io_with_cpp/tcp_echo_server_efficient_data_read_write.cpp. The
--     circular buffer with the bytes of its array, which the I/O service puts and takes in the
--     order of a buffer sequence, and the session.
--   * Sender: other_ressources/async_io_with_cpp/send_recursive_not_recommend.cpp. `send` and
--     `on_send`, a recursion on the completions of the I/O service; it has enough of them when
--     they are as many as the bytes of the message.
--   * Keyboard: other_ressources/user_input.cpp. The thread that reads keys and the loop of
--     `main`, as steps that interleave.
--   * HttpClient: other_ressources/boost_beast/src/async_http_get_client.cpp, and in
--     HttpClient/Tls other_ressources/boost_beast/src/ssl_http_get_client.cpp. The chain of
--     handlers of one request. Plain and Chunks beside them are
--     other_ressources/async_io_with_cpp/simple_http_client.cpp and
--     other_ressources/the_boost_libraries/networking_client.cpp, and Scripts are
--     simple_http_get_client.cpp and simple_websocket_client.cpp of
--     other_ressources/boost_beast/src.
--   * SimpleEcho: other_ressources/async_io_with_cpp/simple_echo_server.cpp. A session that
--     reads and writes in turn. SimpleEcho/Accepting is its server, which two other echo servers
--     repeat word for word.
--   * MainClient: src/main_client_async.cpp, whose thread prints what comes while main asks, and
--     in MainClient/Sync src/main_client.cpp.
--   * Common: lists, tests, bytes and bits over the native numbers.
--
-- Bounds. `uint32_t`, `uint64_t` and `size_t` (64 bits) wrap as written out with `%`. `update`
-- recurses on its own limit, numMaxMessages, whose default is 2^64 - 1. `run_reads` lets
-- at most a given number of reads complete, and two for each message are enough. The loop
-- of a session of SyncHttp recurs on the rounds that are given, and a decimal number has 20 digits at most,
-- as 64 bits have. The array of EchoBytes has the 65536 places that the session asks for.
--
-- Not modelled: Boost.Asio and Boost.Beast themselves, which are the environment that each relation of
-- steps lets complete what is pending; the threads of the I/O service (its handlers run one at a
-- time); the time that a timeout takes, after which an operation fails like any other; console output where
-- it is not the purpose of a program; command lines; the programs under
-- other_ressources that are demonstrations of single library calls.
pub mod Common
pub mod Message
pub mod TsQueue
pub mod Connection
pub mod Server
pub mod ChatServer
pub mod Client
pub mod ChatClient
pub mod EchoServer
pub mod HttpServer
pub mod ChatRoom
pub mod EchoDecoupled
pub mod SyncHttp
pub mod SslServer
pub mod TerminalServer
pub mod EchoBytes
pub mod Sender
pub mod Keyboard
pub mod HttpClient
pub mod SimpleEcho
pub mod MainClient
