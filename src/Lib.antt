-- ===== src/Lib.antt =====
-- A model of the SMPP gateway with the theorems that hold of it.
--
-- The program takes SMPP sessions from message centres and external entities, reads and writes PDUs
-- with the codec of libs/smpp, and passes messages on to pinex targets, which src/routing/pinex
-- chooses.
--
-- Smpp is the codec of libs/smpp. Byte has bytes and 16-bit words; Oparam is param/oparam.hpp, a
-- `std::map` as the list of its entries; EsmClass and RegisteredDelivery are the two bytes of flags;
-- CommandId is common/command_id.hpp and bind_type.hpp. Wire is common/serialization.hpp: `Codec`
-- lists the structs of `detail` that read and write one member, `deserialize_members` and
-- `serialize_members` run them over a PDU's members. Pdu is what each header of pdu/ declares, as
-- the record `Pdu` that the two templates `serialize_to` and `deserialize` are applied to; the
-- structs and their records are in Pdu/Requests and Pdu/Responses.
--
-- FlatBuffer is net/detail/flat_buffer.hpp, an array refined to the queue of bytes that the session's
-- receive buffer is taken for. ShortMessage is utility/short_message.hpp and
-- utility/data_coding_unicode.hpp. Session is net/session.hpp:
-- `Session` has the fields of the class and what the socket and the timers owe it, `Receive` the
-- messages it hands to its handlers and the loop of `do_receive`. A handler is a function on the
-- session, a parameter; the socket's and the timers' events are the constructors of
-- `Session.Reachable.Reachable`. Which handlers are set is up to the owner there, and what `close` posts
-- is an event.
--
-- Pinex is src/routing/pinex. RouteMapper is route_mapper.h, a trie whose nodes hold the fields of
-- `char_node`; RoutingList is routing_list.cpp, Router is router.cpp. Text is the equality and order
-- of `std::string`.
--
-- Routing is src/routing/smpp, which chooses the session that a deliver message goes to. BitSet is
-- bit_set.cpp, over Digits, the binary digits of a word: the words refine the set of the indices
-- whose bit is set. Trie is trie_matcher.cpp: `found` is what a query finds on its path, `selects`
-- what `match` makes of it. RuleMatcher is prefix_rule_matcher.cpp, with the bit `4 r + i` for the
-- field `i` of the rule `r`. Matcher is routing_matcher.cpp: `Matcher.Table` is the list of the routes
-- by number, `Matcher.Configured.Configured` the states that the configuration leads to, each with
-- its table. The words of a set are as many as its size needs, the trie's maps of children are lists,
-- and `byte_counts_` counts 8 bytes for a pointer.
--
-- Pinex.Codec is the codec of libs/pinex: the PDUs of libs/pinex/pdu, the members in
-- libs/pinex/common/serialization.hpp that they use, and the header and framing in
-- libs/pinex/net/session.hpp. A read outside a buffer is the frame `undefined`.
--
-- Expirator is src/libs/expirator.hpp, the waiting sequence numbers of a session.
--
-- FlowControl is the method `limit_credit` of src/libs/flow_control.hpp, and FlowControl.FixedFlow its
-- method `fixed_flow`; the time of each call is a parameter.
--
-- Conventions. A byte is a number below 256, an enumeration over `uint8_t` is its byte. Exceptions
-- are values of `Base.Results.Result`, named by their C++ class; message texts are left out. Loops
-- are recursions; `Oparam.read_loop` takes the length of the buffer as fuel, since each round takes
-- four bytes; `ShortMessage.header_loop` and `Session.Receive.receive_loop`, whose rounds take two and
-- sixteen, likewise; and `find_matching` one more than the length of the text, since each call comes one
-- byte nearer. A configuration node is the record of the values that the code reads from it, and the
-- handler that turns a message type into a number is a parameter. `Routing.BitSet.word_indices` takes 64
-- as fuel, since each round clears one bit of a word.
--
-- Not modelled: sockets and threads themselves, the locks of route_mapper.h (each operation holds its
-- lock from start to end), logging, the protobuf messages, and the REST configuration server; nor
-- the code of src/smpp, src/pinex and src/paper, the state machine of the pinex session, and the rest
-- of src/libs. Indices of a bit set are taken to be below 2 ^ 31, where `std::div` takes them
-- unchanged; a failed assertion ends the process.
pub mod Base
pub mod Smpp
pub mod Pinex
pub mod FlowControl
pub mod Routing
pub mod Expirator
