-- ===== src/Lib.antt =====
-- ft_irc, an IRC server in C++98: one process that polls its sockets, keeps clients and channels, and
-- answers the commands that arrive line by line. This library models the server (src/*.cpp and
-- inc/*.hpp) and the bot that comes with it (bot/main.cpp).
--
-- The parts of the program and the files that model them:
-- - Base, Map, Text: lists, Boolean tests, std::map and std::set as ordered entries, std::string as
--   its bytes.
-- - Channel (src/Channel.cpp), Client (src/Client.cpp), Parser (src/Parser.cpp): a record for each
--   class, a function for each member function.
-- - Server (src/Server.cpp, inc/Server.hpp): the state of the server, `enableWrite`, `sendReply` and
--   `broadcastToChannel`. Connection: `acceptNewClient`, `flushClientWrite`, `disconnectClient`.
--   Dispatch: `handleClientRead`, `extractCommands` and `processCommand`.
-- - ChannelCommands (src/ChannelCommands.cpp): JOIN, PART, KICK, INVITE, TOPIC, one file each, and
--   `promoteSuccessor` in Succession. Mode (src/Mode.cpp), with the C library's atoi() in Number.
--   Registration (src/Registration.cpp), Messages (src/Messages.cpp), Queries (src/Queries.cpp).
-- - EventLoop (src/Server.cpp): `run`, a round at a time, with what the system answers to each entry.
-- - Port and Start: `isValidPort` and `main` of src/main.cpp.
-- - Bot (bot/main.cpp): what the bot does with what recv() returns.
-- - Effects: the specification. A `Run` of an actor is a list of elementary changes, each with what
--   permits it: who may remove, invite, lock, limit or become an operator, what a PASS, NICK or USER
--   may do to the account. Its child modules hold the handlers against it, and the invariants of its
--   effects.
-- - Operators, Admission, Limits, ChannelNames, Broadcast, Delivery: theorems on `promoteSuccessor`, on
--   JOIN and the lists of channels that it is given, on messages to a channel and on the output queue.
-- - Cut: a text as the lines in it and what follows them, for the server and for the bot. Extraction: the
--   loop of `extractCommands`, with what the handlers leave alone in Extraction/Frame, and a read as the
--   lines that it ends in Extraction/Reads.
-- - Map/Keys, Polling: maps and the table of polled descriptors, where each key occurs once.
-- - OneChannel, Departure: what one channel goes through when a client leaves, and the loop over all.
-- - Validity: the state as every event finds it, `IsValid`, and the effects on it. Disconnection,
--   Events, Sending, Connecting: the events of a round on a valid state. Serving and the child modules of
--   EventLoop: what an event leaves in the table, a round to its end, and the program from its start.
-- - Quitting, Forgotten, Rejections, Notices: a client that leaves, one that has left, one that is not
--   registered yet, and what NOTICE may do.
-- - Bot/Search, Bot/Reading, Bot/Chunks, Bot/Heard: texts found in texts, and the lines that the bot reads.
--   Bot/Replies, Bot/Answers, Bot/Reports, Bot/Users: what it answers, and the lists that it is sent.
--   Bot/Lines, Bot/Session: all that it sends.
-- - Examples: a server with two clients, and each theorem at work on it.
--
-- How state and calls correspond: a handler is a function from the server to the server, in the order
-- in which the code changes it; a reference to a channel or a client is a write under its key
-- (`put_channel`, `modify_client`); an iterator that may be at the end is an Option; a descriptor of
-- -1 is `none`. Replies are written byte for byte into the client's queue. What the system calls
-- returned (accept, fcntl, recv, send) is an argument. Names follow the code's, in snake_case.
--
-- Fuel: the parser's parameters, the names of a JOIN or PART and the lines of a read take at least one
-- character in each round, and are given the length of their text; so do the lines that the bot reads.
-- A round of `run` is given one step more than there are entries: each step passes an entry or takes one
-- away, and only the server's own entry, which is passed once, adds one.
--
-- What the system calls promise is a hypothesis: accept() returns descriptors that are not open
-- (`AreFresh`). The rounds of `run` are a list, since the program ends only when it is shut down.
--
-- Not modelled: the log that goes to std::cout and std::cerr, the calls that open sockets and set signals
-- (their results are arguments), the copying of clients and channels, and the tests of the arguments and
-- the connection in the bot's `main`.
pub mod Base
pub mod Map
pub mod Text
pub mod Channel
pub mod Client
pub mod Parser
pub mod Server
pub mod ChannelCommands
pub mod Number
pub mod Mode
pub mod Registration
pub mod Connection
pub mod Messages
pub mod Queries
pub mod Dispatch
pub mod Effects
pub mod Operators
pub mod Admission
pub mod Delivery
pub mod Examples
pub mod Broadcast
pub mod ChannelNames
pub mod Extraction
pub mod Port
pub mod Polling
pub mod OneChannel
pub mod Departure
pub mod Validity
pub mod Disconnection
pub mod Events
pub mod Connecting
pub mod EventLoop
pub mod Serving
pub mod Bot
pub mod Rejections
pub mod Forgotten
pub mod Start
pub mod Sending
pub mod Limits
pub mod Notices
pub mod Quitting
pub mod Cut
