-- ===== src/Lib.antt =====
-- socket_collection: sockets that send and receive whole messages over TCP, UDP and UDT, with
-- priorities and encryption. This library models the crate and proves that its queue, its framing
-- and its sockets do what they promise.
--
-- The parts of the program, and how they work together. A message that is written to a socket is
-- serialised and encrypted (src/crypto.rs), for TCP with its encrypted length in front
-- (`serialize_with_len` of src/tcp.rs), and is put into a queue by priority (src/out_queue.rs),
-- from which expired messages are dropped first. The sending loop of the socket then takes
-- messages from the queue until the operating system would block; `current_write` holds what it
-- could not send. A TCP socket reads bytes until the stream would block and lets
-- `LenDelimitedReader` cut messages off them; a UDP socket buffers all datagrams that are there
-- and returns them one by one. `Socket` (src/socket.rs) is one of the two. The application polls:
-- a call of `read` or `write` is one step of its event loop. A UDT socket (src/udt/udt_sock.rs)
-- keeps its own queue and its own buffer, without encryption, and is polled by a thread
-- (src/udt/udt_event_loop.rs): handles put actions into a set that they share with the thread, and
-- the thread waits for the epoll, notifies, drains the set and carries the actions out.
--
-- The files:
--   Base          shared names, Boolean tests, results, runs and the rules for loops; Dict is the
--                 hash map and the hash set of the standard library
--   Env, Mio      what the crate takes from others: serialisation, encryption, mio
--   Error, Config src/error.rs and src/lib.rs
--   Crypto        src/crypto.rs: EncryptContext, DecryptContext
--   OutQueue      src/out_queue.rs: the queue; Order is the abstract queue, one list in the order
--                 of sending, Refinement and Expiry say how the operations act on it, and Waiting
--                 puts the message in front that is being sent, and Work is what is left to do;
--                 Cut is how far the sending of messages has come;
--                 Fates, Taken and Ledger account for the messages over many calls
--   Tcp/Frame, Tcp/Reader
--                 serialize_with_len and LenDelimitedReader of src/tcp.rs
--   Tcp/Inner     Inner of src/tcp.rs: read, write, flush_write_until_would_block; Live and
--                 Polls are about a socket that is polled until nothing waits
--   Tcp/Sock      TcpSock of src/tcp.rs
--   Tcp/Delivery, Tcp/Session
--                 both ends of a TCP connection, for one flush and for a whole session of writes
--                 of all priorities and polls
--   Udp/Handlers, Udp/Inbox, Udp/Outbox
--                 the result handlers and the receiving and sending loops of src/udp.rs
--   Udp/Inner     Inner of src/udp.rs
--   Udp/Session   both ends of a UDP connection and an unreliable network between them
--   Udp/Sock      UdpSock of src/udp.rs
--   Udt/Api       what src/udt takes from others: the UDT library, byte order, streaming codec
--   Udt/Frame     the frame that `write` of src/udt/udt_sock.rs puts together
--   Udt/Inner     Inner of src/udt/udt_sock.rs: read, read_from_buffer, write
--   Udt/Delivery, Udt/Session
--                 both ends of a UDT connection, for one flush and for a whole session
--   Udt/EventLoop src/udt/udt_event_loop.rs; Process is about a drained set, System has the thread
--                 and the calls as steps, Tokens, Runs, Progress and Shutdown are about runs
--   Udt/Sock, Udt/IoError
--                 UdtSock of src/udt/udt_sock.rs; Registration joins it to the event loop
--   Socket        src/socket.rs
--   Tests         concrete crates, streams and sockets, and the theorems at concrete inputs
--
-- How the code is modelled. A struct is a record with the source's fields, and `&mut self` is the
-- state passed in and returned; an early `?` returns the state as it is at that point. `BTreeMap`
-- is an association list in ascending order of the keys, `VecDeque` and `Vec` are lists, bytes and
-- priorities are natural numbers. The length of a payload is cast to `u32`, so it is taken modulo
-- 2 ^ 32. `Instant` is a number of nanoseconds; each call takes the clock that its reads of the
-- time see, one instant for each queue that is examined, and the instant of the push. What an
-- encryption draws from the random generator is an argument (`Nonce`). `unwrap!` of nothing is the
-- value `panic` of a run, so its absence is a theorem. The slices of the buffer in the reader of
-- src/tcp.rs are `take` and `drop`, which stop at the end: the source tests the length before each
-- of them, so both agree, but that these slices do not panic is not a theorem here.
--
-- Loops run on fuel, one unit for each round. The theorems on loops say which fuel is enough and
-- that the loop then returns: for sending over TCP one round for each pending byte and message,
-- for sending over UDP one for each datagram and for each attempt that the socket takes only in
-- part, for receiving one for each time that the socket has something to give.
--
-- What is assumed of code outside the crate stands in records that the theorems take: `RoundTrips`
-- and `FixedSizes` (Env) for serialisation and encryption, `SendLaws` for `write`, `send` and
-- `send_to`, and `ReadLaws` and `RecvLaws` for a stream or socket that runs dry, `LiveLaws` for a
-- stream that becomes writable again; `WatchLaws` for an epoll that refuses no call; for UDT,
-- which has its own `SendLaws` and `ReadLaws`, also `ByteOrderLaws` and `Streams`. Tests gives
-- each of them a concrete instance.
--
-- src/udt is not compiled: its module is commented out in src/lib.rs, and the constants that it
-- takes from the crate root are not declared there. They are the parameter `Limits`.
--
-- Not modelled: logging, which has no effect on the state; the derived `Debug` instances; the
-- capacity that buffers are allocated with; the texts of errors that nothing reads; the start of
-- the thread, the poisoning of its mutex and the join when `EpollLoop` is dropped;
-- `mio_to_std_udp_sock` on windows, which is unimplemented. Linger times and the arguments of
-- `register` of TCP and UDP are passed on unread. The field `handle` of a UDT socket is left out:
-- what it refers to is an argument.
pub mod Base
pub mod Env
pub mod Error
pub mod Crypto
pub mod Config
pub mod OutQueue
pub mod Mio
pub mod Tcp
pub mod Udp
pub mod Socket
mod Tests
pub mod Udt
