-- ===== src/Lib.antt =====
-- A verification library of gb32960-go-sdk, a Go SDK for servers of the GB/T 32960 protocol of
-- electric vehicles: terminals send frames over TCP, a frame carries a command, a VIN, an
-- encryption type, data and a checksum, and the data of most commands begin with a time of six
-- bytes.
--
-- How the parts interact: a connection feeds the bytes that it reads to a frame decoder, and calls
-- Decode until it gives nil. A packet's data are decrypted if they have to be, and decoded by its
-- command: logins, logouts, platform logins and parameters by the decoders of decoder.go, realtime
-- and reissue messages by message.go, which cuts them into fields and calls the decoders of codec/.
-- A login enters the connection in the VIN registry and may set a key for the encryption. Answers
-- go out through EncodeResponse.
--
-- The files and the code that they model:
--
-- - Decoder.antt: decoder.go, `Decoder`, `Feed`, `Decode`, `findStartMarker`, `calculateBCC`,
--   `verifyBCC`, `EncodeResponse`. The struct is the record `Decoder`, with `none` for a nil
--   buffer. The endless loop of Decode is `decode_loop`; `attempt` is one round, which ends it
--   (`returns`), goes on (`again`) or panics (`crash`). Decoder/Stream.antt is the abstract view: a
--   parser of the bytes that are not yet read.
-- - Time6.antt: decoder.go, the times of six bytes; GoTime.antt: what time.Date of the Go standard
--   library does with fields out of range, in UTC.
-- - Body.antt: decoder.go, the decoders of the bodies of logins, logouts and parameters, and
--   conn.go, the bodies that the Send methods build. The current time is an argument.
--   Packet/Bodies.antt has their records, from packet.go.
-- - Codec.antt and its child modules: codec/, the decoders of the nine fields and their table.
-- - Message.antt: message.go, the loop over fields of a realtime message and the loop over items of
--   a reissue message; Message/FieldEnd.antt: `findFieldEnd`; Message/Store.antt: the copies into
--   the message. Message/Cut.antt and Message/Reissue.antt have what the loops make of well-formed
--   fields and items. Packet/Fields.antt has the records, from packet.go.
-- - Decoder/Vin.antt: decoder.go, `VerifyVIN`. Decoder/Rows.antt has rows of whole frames in one
--   buffer.
-- - VinRegistry.antt: vin_registry.go. The map is a list of entries, a connection is a number for
--   its object. Each method holds the lock throughout, so that it is one step.
-- - Crypto.antt: crypto.go. The block function of crypto/aes is the parameter `BlockCipher`, with
--   the law that deciphering undoes enciphering on blocks of sixteen bytes. The chaining of
--   crypto/cipher is written out.
-- - Connection.antt: conn.go, `Send`, `Close`, and `unregister` of server.go;
--   Connection/Handle.antt: `handlePacket`, one function for each command; Connection/Run.antt:
--   `run` and `processPackets`. One connection runs as a sequential program over a `World`: the
--   connection, what it shares with the server, and a trace of what happened outside. `Env` has the
--   parameters: which handlers are set, and what the handlers, the clock and the network answer,
--   which may depend on the trace.
-- - Connection/Senders.antt: conn.go, the other Send methods. Connection/Rule.antt is a record of
--   what a property of the worlds has to give for each way in which a world changes, and
--   Connection/Rows.antt carries such a property along a row of packets.
-- - Server.antt: server.go, the count of connections and their map. Server/Count.antt has the steps
--   of accepting and unregistering in any order.
-- - Server/Pool.antt: server.go, the loop of `Start`, `Stop`, `idleCheckLoop` and the lookups, over
--   all connections there have been. `Move` is a step of one of the goroutines, and `perform_all`
--   takes any order of them. Server/Moves.antt is a rule for what all moves keep, Server/Reach.antt
--   has the invariant, Server/Idle.antt what the idle check brings about, Server/Stop.antt what is
--   left after `Stop`.
-- - Forward.antt: forward/, both forwarders, and `forward` of server.go, whose goroutines
--   Forward/Schedule.antt takes in any order. A connection's trace records only that a message is
--   handed over.
-- - Options.antt: options.go, and `NewServer` of server.go.
-- - Client/Simulator.antt: cmd/simclient/main.go; Client/Stress.antt: cmd/stresstest/main.go;
--   Client/Example.antt: the login handler of cmd/example/main.go. Client/Served.antt and
--   Client/StressServed.antt let a connection of the SDK read what these clients write.
-- - Auth.antt: auth/auth.go, the white list.
-- - Constant.antt and Constant/Cmd.antt: constant/command.go.
-- - Base.antt: results, reads of bytes with their panics, lists and bits.
--
-- Conventions: a byte, a uint16 and a uint32 are natural numbers, and where the code narrows an
-- integer the remainder is written out. `int` has 64 bits in Go and nothing here comes near its
-- bounds. A string is the list of its bytes. A call gives `ok`, `err`, or `panic` where Go would
-- panic at run time; an index or a slice outside its bounds is such a panic. Error values keep what
-- their message prints.
--
-- Fuel: `decode_loop` has one round for each unread byte and one more, and `fields_loop` has one
-- round for each byte of the message and one more, which is enough since a round that goes on
-- passes one byte at least. `runes_loop` has one round for each byte of the string, since a rune
-- takes a byte at least. `decimal` has room for nineteen digits, enough for an `int`.
-- `packets_loop` has one round for each unread byte and one more, since each packet takes a byte at
-- least. Without fuel a loop gives `stuck`, which no theorem below allows. The other loops are
-- recursion on their counts.
--
-- Not modelled: handlers that call their connection back in the middle of a packet, and the
-- deadlines of the socket; the wait of `Stop` for all goroutines; the clients of Kafka and MQTT
-- behind forward/, which are parameters; the buffer pool of buffer.go, which is the reuse of
-- memory; latencies, reports and flags of the programs in cmd/; logging and the tables of names
-- that it prints. A move of the pool is a whole read with its packets, or a whole call of `Close`,
-- so that no other goroutine runs in the middle of these; in the code another goroutine may see a
-- connection that is closed and still in the map.
pub mod Base
pub mod Constant
pub mod Packet
pub mod Decoder
pub mod GoTime
pub mod Time6
pub mod Codec
pub mod Message
pub mod VinRegistry
pub mod Body
pub mod Crypto
pub mod Connection
pub mod Server
pub mod Auth
pub mod Client
pub mod Options
pub mod Forward
