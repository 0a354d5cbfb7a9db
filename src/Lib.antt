-- ===== src/Lib.antt =====
-- Verification of the MQTT 3.1.1 client library mqtt-go (package mqtt, at the repository's root).
--
-- The program. A BaseClient (client.go, connect.go, publish.go, subscribe.go, unsubscribe.go) owns
-- one connection: its methods build packets (packet.go and one file for each packet type), write
-- them, and wait for the acknowledgement that the reading loop (serve.go) signals. A RetryClient
-- (retryclient.go) queues the requests of the user, keeps the established subscriptions
-- (subscriptions.go) and repeats what was not acknowledged; a ReconnectClient (reconnclient.go)
-- gives it a new BaseClient when the connection is lost. Messages that arrive go to a handler,
-- which may be a multiplexer over topic filters (servemux.go, filter.go).
--
-- The files.
-- * Base holds what the others share: tests, lists over native numbers, Base.Bits (bytes, and the
--   bit operations of the source as arithmetic) and Base.Outcome (a Go call comes to a value, an
--   error or a panic). Errors is error.go: the error values, wrapErrorImpl and Error.Is.
-- * Packet is packet.go and readPacket of serve.go: pack, remainingLength, the string and number
--   fields, and reading one packet from the bytes of a connection. A Go string is its bytes; the
--   conversions between strings and runes that unpackString relies on are written out in
--   Packet.Runes as the Go specification defines them.
-- * Message is message.go and the types of mqtt.go. Ack is connack.go, suback.go, unsuback.go,
--   puback.go, pubrec.go, pubrel.go, pubcomp.go and pingresp.go. Publish is the packet of
--   publish.go and ValidateMessage; Connect is the packet and the options of connect.go; Subscribe
--   is the packets of subscribe.go and unsubscribe.go. Connect.Reader and Subscribe.Decode have a
--   reader of these packets, which the library, a client, does not have; it is written from the
--   MQTT 3.1.1 text.
-- * Filter is filter.go. Matches of Filter.Matching is the wildcard rule of the MQTT text as a
--   relation. Subscriptions is subscriptions.go.
-- * Signaller is the signaller of client.go, and Serve the reading loop of serve.go with the write of
--   client.go: one step for each packet, and the loop over the bytes of the connection. The state
--   has the signaller, the channels, the messages of QoS 2 that are kept, and the trace of handler
--   calls and writes. The transport is a parameter. The loop runs on fuel, and every round reads two
--   bytes at least, so that more fuel than bytes is enough.
-- * Mux is servemux.go: registration, and the calls that a message makes, in order; and
--   serveasync.go.
-- * Ids is uniqid.go. The random number is a parameter; the fuel of newID counts its recursive calls,
--   of which one is enough.
-- * State is the connection state and the first error (conn.go, atomic.go), the calls by which
--   connect.go and disconnect.go change them, and the ping statistics of client.go.
-- * Client is the requests of publish.go, subscribe.go, unsubscribe.go and pingreq.go, with Connect and
--   Disconnect in Client.Connecting, Subscribe, Unsubscribe and Ping in Client.Asking, and the errors
--   that carry a retry function (error.go). Which case of a `select` is taken is an argument; the
--   functions that an error carries are data that says what they close over.
-- * KeepAlive is keepalive.go: the loop over what the pings came to.
-- * Dialer is dialer.go: DialContext, its options, and the transport that a scheme asks for. Net is what
--   the packages net, net/url, crypto/tls, os and websocket return, a parameter.
-- * RetryClient is retryclient.go. Its tasks act on the retry queue and the established subscriptions; a
--   request takes the next answer of a world that is given. RetryClient.Loop is the goroutine of
--   SetClient and the calls on the state that they share: one step of the goroutine lies between two
--   points where it can wait, a Boolean says which case of a `select` is taken if both are ready, and a
--   Move is a step or a call, in any order. A call under one lock, and SetClient, is one Move.
-- * Reconnect is reconnclient.go: a round of the loop is given by what its calls return and its selects
--   find, and records what the loop does to the RetryClient, which Reconnect.Queueing carries out on the
--   state of RetryClient.Loop. Durations are nanoseconds with the wrap-around of 64 bits.
-- * Paho is paho/paho.go, paho/token.go and paho/message.go, the wrapper for the interface of another
--   library, whose options are a record of what the code reads; clients and callbacks are numbers.
-- * Tests holds runs at concrete inputs and the theorems applied there.
--
-- Machine integers. A byte is a number below 256 and a uint16 one below 65536, with the wrap-around
-- written out where the source converts. An int is a natural number where the source cannot make it
-- negative; readPacket's length, which can, panics in the model above 2 ^ 48, the largest allocation of the
-- runtime on the usual systems of 64 bits; that memory runs out below is not modelled.
-- A panic of the source (index out of range, slice bounds, an explicit panic) is the outcome panic.
--
-- Loops. The loops recurse on a list or on a number that the source counts, but for those of Serve
-- and of Ids, which run on the fuel described above. The loops of KeepAlive, of the reconnecting
-- client and of the paho wrapper run over the list of the rounds that took place.
--
-- Not modelled: the network, timers and the scheduling of goroutines; mock/mqtt.go, whose methods
-- call functions that a test sets; internal/filteredpipe, which the tests use, and the examples. File
-- and line of an Error are left out.
pub mod Base
pub mod Errors
pub mod Packet
pub mod Message
pub mod Ack
pub mod Publish
pub mod Connect
pub mod Subscribe
pub mod Filter
pub mod Subscriptions
pub mod Tests
pub mod Signaller
pub mod Serve
pub mod Mux
pub mod Ids
pub mod State
pub mod Client
pub mod KeepAlive
pub mod RetryClient
pub mod Reconnect
pub mod Dialer
pub mod Paho
