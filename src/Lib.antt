-- ===== src/Lib.antt =====
-- netb: a C++ library of socket wrappers, an event loop, stream buffers and application protocols.
--
-- The development covers the buffers and the protocols on them, the sockets, their errors, the event
-- loop, and sockets and acceptors that work in it, all in netb/.
--
--   StreamBuffer      A vector of bytes with four numbers: the limit of its length, the origin of the
--                     accessible data, the reading position and the writing position. Writing grows
--                     the vector or reclaims flushed bytes, reading moves the reading position,
--                     flushing moves the origin, and peeking and updating go to any offset.
--   StreamReader,     A pointer to a StreamBuffer, through which numbers in network byte order,
--   StreamWriter      strings and delimited strings are read and written in sequence.
--   RandomReader,     The same at offsets.
--   RandomWriter
--   dns::Message      Header, questions and records, each with its own Serialize, over a StreamReader
--                     and a StreamWriter. Names can end in a pointer that a RandomReader follows.
--   HttpMessage       Headers, a body and the state of a parser that a StreamReader feeds line by line;
--                     HttpRequest adds the request line, HttpResponse the status line.
--   SocketError       How an error code of a system call becomes an Error with a class, or fails an
--                     assert; THROW_ERROR makes an exception of an Error.
--   Socket,           A descriptor with the system calls on it, each in a loop over EINTR where the
--   TcpSocket         source has one; a connection connects, sends and receives in both modes.
--   TcpAcceptor       A listening socket, which gives out the descriptors of its connections.
--   SocketPipe        A connection from one socket to another of the same process.
--   UdpSocket         A datagram socket, which opens itself where it has to.
--   SocketAddress     An IPv4 or IPv6 address, or one of another family, with an order.
--   SocketSelector    The watched descriptors, in a vector with the largest in front, and three sets.
--   EventLoop,        The loop waits in a SocketSelector, calls the EventHandler of each active socket,
--   EventHandler      and then the queued functions; a pipe wakes it where one is queued.
--   AsyncTcpSocket    A TcpSocket with an EventHandler and two StreamBuffers: Send sends at once or
--                     buffers, OnWrite sends what is buffered, and OnRead buffers what arrives and
--                     calls the application.
--   AsyncTcpAcceptor  A TcpAcceptor whose OnRead hands each connection to the application.
--   AsyncUdpSocket    A UdpSocket with a queue of datagrams, which OnWrite sends.
--
-- Files:
--   Prelude           Lists over the native numbers, Boolean tests, arithmetic of size_t, and the
--                     outcome of a call: a value, or a fault (undefined behaviour, a failed assert, an
--                     exception, or fuel that ran out).
--   Memory            memcpy, std::vector::resize and std::rotate on a vector of bytes.
--   StreamBuffer      netb/StreamBuffer.hpp and netb/StreamBuffer.cpp. An action on a buffer is a
--                     function from the buffer to an outcome with the buffer after it. Valid holds the
--                     invariant and what a client sees; Write, Read, Search, Flush, Reclaim and
--                     Copy hold what the operations do, External is on bytes that are put at
--                     Write(), and Sequential says what sequences of calls promise and keep.
--   Host              htons, ntohl and the bytes of an integer in memory, for both byte orders.
--   StreamWriter, StreamReader, RandomReader, RandomWriter
--                     The files of the same names. An object is whether a buffer is attached, and
--                     its options; the buffer is passed along.
--   Wire, Fields      Actions as encoders and decoders, and how these are combined.
--   Dns               Flags, Header, Question and Message of netb/DnsMessage.hpp and .cpp, Name and
--                     Record of netb/DnsRecord.hpp and .cpp. Message.Encoding and Message.Records
--                     are on messages without and with records.
--   Http              Headers, Request and Response of netb/HttpMessage.hpp and .cpp; Number holds
--                     what std::istringstream takes from a text.
--   Errors            netb/Error, netb/ErrorClass, netb/Exception and netb/SocketError, .hpp and .cpp.
--                     Documented holds the codes that the comments list, Classes what is thrown.
--   SocketSelector    netb/SocketSelector.hpp and .cpp. Laws is on Set and Remove, Report on Select.
--   EventLoop         netb/EventLoop and netb/EventHandler, .hpp and .cpp. Registry is on registering,
--                     Disabling on DisableReading, Removal on RemoveHandler, and Wakeups on the queue
--                     and the pipe, as a relation of steps of the loop's thread and of other threads.
--   Socket            netb/Socket.hpp and .cpp. An action takes the state: the descriptor, the error
--                     argument, errno, the calls made so far and what the system is going to answer.
--                     Interrupts is on the loops over EINTR, Descriptors on opening and closing, Modes
--                     on the blocking mode, and Checks on sequences of calls; Inquiry holds what a
--                     socket tells about itself, Throwing the functions that throw.
--   UdpSocket         netb/UdpSocket.hpp and .cpp; Modes is on sending with a timeout, and Receiving
--                     on receiving into a buffer.
--   SocketAddress     netb/SocketAddress.hpp and .cpp. Order is on the comparisons.
--   TcpSocket         netb/TcpSocket.hpp and .cpp; Connecting, Sending, Receiving and Established.
--   TcpAcceptor       netb/TcpAcceptor.hpp and .cpp; Opening and Accepting.
--   SocketPipe        netb/SocketPipe.hpp and .cpp; Pairing.
--   AsyncTcpSocket    netb/AsyncTcpSocket.hpp and .cpp. Outgoing is on single calls of Send and
--                     OnWrite, Stream on sequences of them; Incoming holds connecting, closing and
--                     OnRead, and Reading is on the latter.
--   AsyncTcpAcceptor  netb/AsyncTcpAcceptor.hpp and .cpp; Handing is on OnRead.
--   AsyncUdpSocket    netb/AsyncUdpSocket.hpp and .cpp; Draining is on OnWrite.
--   Roundtrip         Writing followed by reading.
--   Tests             The theorems at concrete inputs.
--
-- Conventions: a byte, a character and an integer of w bits are numbers; arithmetic that can wrap
-- around is written modulo 2 ^ w. A signed integer of w bits is its value modulo 2 ^ w. An optional
-- out-parameter `offset` is part of the result. Asserts are active, since the Makefile does not
-- define NDEBUG. Memory that is not initialised is zero or, for the length of a CNAME, a parameter.
-- The result of rand() is a parameter. std::bad_alloc is not modelled.
--
-- Parameters: std::make_heap, what the system calls and ::select answer (lists, one item for each
-- call), whether the pipe takes a byte, what ::getsockname, ::getpeername and ::getsockopt write, the bytes
-- that ::recv and ::recvfrom put in memory, the application's functions and callbacks, ::inet_pton,
-- and the texts of error messages. ::getnameinfo is only asked for the number of an IPv4 or IPv6
-- address, and taken to write it. A null error argument is `none`.
-- Where the loop's thread and others meet, a step is what happens under one lock.
--
-- Fuel: the loops over EINTR have one round for each answer that is left; Run has a number of turns.
-- The loop over the labels of a name has one step for each unread byte and one more, as each
-- turn takes a byte; the loop behind a pointer has one for each byte of the contents, as its offset
-- grows; the loop over header lines has one for each unread byte and one more, as each line but the
-- last takes at least three bytes.
--
-- Not modelled: the text forms for logging; the functions that are declared but not defined; the
-- constructors of sockets; the address from which a connection or a datagram comes,
-- and Length() of the object that takes it; that
-- EventHandler::Detach blocks; destructors; and EventLoopThread, which starts a thread of the
-- operating system.
pub mod Prelude
pub mod Memory
pub mod StreamBuffer
pub mod Host
pub mod StreamWriter
pub mod StreamReader
pub mod RandomReader
pub mod RandomWriter
pub mod Wire
pub mod Fields
pub mod Dns
pub mod Http
pub mod Roundtrip
pub mod Tests
pub mod SocketSelector
pub mod EventLoop
pub mod Errors
pub mod Socket
pub mod TcpSocket
pub mod TcpAcceptor
pub mod SocketPipe
pub mod AsyncTcpSocket
pub mod AsyncTcpAcceptor
pub mod AsyncUdpSocket
pub mod SocketAddress
pub mod UdpSocket
