-- ===== src/Lib.antt =====
-- zmqmessage: multipart messages over ZeroMQ sockets (include/ZmqMessage.hpp).
--
-- The library has two sides over one container of message parts. Incoming receives the parts of a
-- multipart message from a socket into a storage and hands them out; Sink, of which Outgoing is the
-- subclass, takes parts and sends them, one behind, so that the last part goes without ZMQ_SNDMORE.
-- If the first send would block, a sink queues all parts in a dynamic storage for delayed sending
-- by `send`, or drops them, or throws, as its options say. Part passes the ownership of a message
-- on from one holder to the next.
--
-- Which file models which part:
--   Base        shared names, tests on numbers and lemmas on lists.
--   Bytes       strings of bytes in their order, int of 32 bits and size_t of 64, and memcmp, which
--               is a parameter with its documented law.
--   Zmq         libzmq and zmq.hpp, which are not part of the repository: the message calls are a
--               record of functions with laws for their documented behaviour, a destination socket
--               is its answers (accepted, would block, failed) to what it has been sent, a source
--               socket is the messages that its calls of recv give. Nothing is assumed of sockets.
--   Part        include/zmqmessage/Part.hpp.
--   Storage     include/zmqmessage/PartsStorage.hpp and DynamicPartsStorage of
--               include/zmqmessage/ZmqMessageTemplateImpl.hpp; Storage/Interface is what
--               include/zmqmessage/MultipartContainer.hpp makes of a storage.
--   Options     include/zmqmessage/OutOptions.hpp.
--   Sink        the class Sink of include/zmqmessage/Sink.hpp with its members in
--               include/zmqmessage/ZmqMessageFullImpl.hpp. Sink/Run states its contract.
--   Inserting   the operators << of Sink, send_incoming_messages, relay_from, RawMessage.hpp,
--               Manip.hpp, and Outgoing.hpp with send_routing; Inserting/Iterator is the output
--               iterator of Sink.hpp.
--   Multipart   include/zmqmessage/Multipart.hpp, and send of include/zmqmessage/send.hpp.
--   Tools       the functions on sockets of include/ZmqTools.hpp, relay_raw among them; Tools/Text
--               is its conversions between values and messages, for any type with stream
--               operators and a representation in memory, and Tools/Compare is msgcmp.
--   Incoming    include/zmqmessage/Incoming.hpp with its members in
--               include/zmqmessage/ZmqMessageTemplateImpl.hpp; Incoming/Tail is fetch_tail and
--               drop_tail.
--   Routing     include/zmqmessage/Routing.hpp with receive_routing; Routing/Request is receive
--               and receive_all behind it, Routing/Reply the response along the routing.
--   Modes       text and binary mode: include/zmqmessage/MetaTypes.hpp with the overloads of
--               include/ZmqTools.hpp that it selects, and the manipulators of Manip.hpp, in any
--               sequence of insertions and of extractions.
--   Examples    examples/StringFace.hpp; Examples/Async, the thread async_task_processor of
--               examples/zasync.cpp, with its books in Round and Run below it; Examples/Sorter, the
--               thread sorter of examples/zsort.cpp and examples/zbisort.cpp; Examples/Bisort, the
--               thread relay of examples/zbisort.cpp; Examples/Serialize, the structures and
--               messages of examples/zserialize.cpp; and Examples/Queue, the thread worker of
--               examples/zqueue.cpp.
--   Tests       runs at concrete inputs, and applications of the theorems.
--
-- An operation is a function on the state record of its class. It returns how the call ends (ok, or
-- the exception that is thrown; a failed assertion and undefined behaviour are ends too), the state
-- after it, and the part that was passed, as the call leaves it. What a destination and its
-- observer have seen is the trace of the sink, the latest event first.
--
-- Bounds: the capacity of a dynamic storage is doubled on size_t, which has 64 bits; with fewer
-- than 2 ^ 63 places this does not wrap, and fewer than 2 ^ 61 parts never need as many. Counters
-- of parts in memory do not wrap, and are natural numbers. relay_raw, fetch_tail and drop_tail keep
-- no parts and count on an int: an increment to 2 ^ 31 is undefined. The steps of a task of
-- zasync.cpp are an integer that does not wrap; the int of msgcmp wraps, at 32 bits. Loops that end
-- when a socket has no more parts run on fuel and give none where it runs out.
--
-- Assertions are those of a build without NDEBUG. An exception that the exception specification of
-- a function does not allow is an end of its own, std::unexpected. getsockopt of ZMQ_RCVMORE on an
-- open socket is taken not to fail. Where Part.hpp throws error_t, zmq::error_t is meant.
--
-- Not modelled: logging, the texts of errors and the names of parts in them, std::bad_alloc,
-- observers that change the message they are shown, several threads on one object (which the
-- library excludes), the programs in tests, and the main threads of the examples, but for the
-- messages of zserialize.cpp.
pub mod Base
pub mod Bytes
pub mod Zmq
pub mod Part
pub mod Storage
pub mod Options
pub mod Sink
pub mod Multipart
pub mod Tools
pub mod Incoming
pub mod Inserting
pub mod Routing
pub mod Modes
pub mod Examples
mod Tests
