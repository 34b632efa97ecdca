-- ===== src/Lib.antt =====
-- The core of the NATS client: how bytes from the server become events, how events reach
-- subscriptions, how commands reach the server, and the small components these rest on.
--
-- How the parts work together: the transport's chunks go through `Parser.parse`
-- (nats-base-client/parser.ts), which keeps the arguments and payloads that a chunk cuts in a
-- `DenoBuffer` (nats-base-client/denobuffer.ts) and pushes one event for each operation. The
-- `ProtocolHandler` (nats-base-client/protocol.ts) hands a message event to the subscription of its
-- sid, and puts commands into a `DataBuffer` (nats-base-client/databuffer.ts), which a microtask or a
-- full buffer flushes to the transport. Inboxes are named by `Nuid` (nats-base-client/nuid.ts), hosts
-- are tested by `isIP` (nats-base-client/ipparser.ts), and `Features` (nats-base-client/semver.ts)
-- says what the server's version makes available. A client reads a subscription through a
-- `QueuedIteratorImpl` (nats-base-client/queued_iterator.ts), a request waits in the
-- `MuxSubscription` (nats-base-client/muxsubscription.ts) for its reply, a message's headers are a
-- `MsgHdrsImpl` (nats-base-client/headers.ts), and a consumer of a stream pulls its messages
-- (jetstream/consumer.ts), acknowledges them (jetstream/jsmsg.ts), and objects are put into a stream as
-- chunks and read back (jetstream/objectstore.ts).
--
-- - Parser: `Parser.parse`. Parser/Args has the data and the argument functions (`processMsgArgs`,
--   `processHeaderMsgArgs`, `protoParseInt`), Parser/Machine the states as one step function for each
--   group and the loop. Parser/Stream is a reader of single bytes, which the machine is compared with
--   in Parser/Chunks; Parser/Frames has the operations as they are written to the wire, and
--   Parser/Events what every event satisfies. The buffers of the parser are held by their contents.
-- - Buffer: `DenoBuffer`, with the backing store, the view's length and the read offset.
-- - DataBuffer: `DataBuffer`, and `concat` of nats-base-client/encoders.ts.
-- - Protocol: `Subscriptions` and `processMsg`, `sendCommand`, `flushPending`, `publish`, `subscribe`,
--   `unsubscribe`, `unsub` and `resub` of `ProtocolHandler`. Protocol/Deliver is about messages,
--   Protocol/Outbound about what is sent, Protocol/Sids about the sids, Protocol/Subscribe about the
--   client's calls. Protocol/Lines has the lines of the wire, field by field, apart from the code.
-- - Session: the handler as it keeps a connection: `push` of the parser's events, pings and pongs and
--   the deferreds of `flush`, `processInfo`, `processError`, `prepare`, `sendSubscriptions` and what
--   `dial` does once it is connected. Session/Deferreds is about pongs, Session/Reconnect about a new
--   connection, Session/Dispatch about the way from the transport to a subscription,
--   Session/Errors about a subscription that is not permitted.
-- - Iterator: `QueuedIteratorImpl` (nats-base-client/queued_iterator.ts), with its generator as a state
--   machine that `turn` moves. Iterator/Accounts and Iterator/Order are about any sequence of events,
--   Iterator/Drains about a client that goes on reading.
-- - Mux: `MuxSubscription`, `RequestOne` and `RequestMany` (nats-base-client/muxsubscription.ts,
--   nats-base-client/request.ts), with the request objects in a store: Mux/Requests and Mux/Table.
--   Mux/Store is about the map of tokens, Mux/Live about all that can happen to requests, Mux/Replies
--   about what a reply does.
-- - Headers: `MsgHdrsImpl` (nats-base-client/headers.ts), as a map in Headers/Entries and as text in
--   Headers/Lines; Headers/Written, Headers/Put and Headers/Status lead to Headers/RoundTrip.
-- - JetStream: JetStream/Pull is `PullConsumerMessagesImpl`, JetStream/Ordered is
--   `OrderedPullConsumerImpl` (jetstream/consumer.ts).
--   JetStream/Objects is `ObjectStoreImpl` (jetstream/objectstore.ts), over a stream that is given by its
--   operations and their laws (Objects/Server): Objects/Upload has `_put` and what calls it,
--   Objects/Download `get` and `getBlob`, Objects/Manage `delete`, `link` and `update`. Objects/Sent,
--   Objects/Kept and Objects/Puts follow a put, Objects/Received a reader; Objects/RoundTrip,
--   Objects/Failures, Objects/Limits, Objects/Changes and Objects/Renames are about the store as a whole. JetStream/Digest is
--   jetstream/sha_digest.parser.ts with the encoder of nats-base-client/base64.ts, JetStream/Acks is
--   `parseInfo` and `JsMsgImpl` (jetstream/jsmsg.ts), JetStream/Keys the keys of `Bucket`
--   (jetstream/kv.ts), and JetStream/Tokens the tokens of subjects that these two share.
-- - Dial: `_doDial` and `dodialLoop` of `ProtocolHandler`, over the pool of Servers. Dial/Weights, Dial/Gossip,
--   Dial/Attempts and Dial/Bounds are about how often it can fail, Dial/First about the first connection.
-- - Heartbeat: `Heartbeat` (nats-base-client/heartbeats.ts), with its timers. Heartbeat/Silence is about
--   any sequence of events, and about a server that does not answer.
-- - Servers: `Servers` (nats-base-client/servers.ts), with the parsing of addresses as a parameter.
-- - Nuid, IpParser, Semver: the files of these names.
-- - Base: names that the others share, and lemmas on lists measured by native numbers.
--
-- Bounds and fuel. The loop of the parser takes as many rounds as the chunk has bytes, as each round
-- raises the index; a jump over a payload raises it by more, and the rounds that are left do nothing.
-- The loop of `parseIPv6` has eight rounds, as each goes two bytes of sixteen further. Numbers are exact
-- in JavaScript up to 2 ^ 53 and are natural numbers here; those that wrap are in typed arrays and
-- carry their `% 256`. `DenoBuffer` has its `MAX_SIZE` as a parameter. The loop that cuts an object into
-- chunks has the bytes that are held as fuel, since a chunk has a byte at least. The fuel of `get` bounds the
-- links that it follows, which may form a cycle. The dial loop goes over the rounds that it is given.
--
-- What comes from outside is a parameter: the runtime's conversion of numbers to strings (`show`), the
-- bytes and numbers of the random sources (`Draw`), the encoded headers of a publication, what
-- `hostPort` reads from an address with the runtime's URL class, what JSON and `parseSemVer` read from
-- an `INFO`, what the regular expressions of `toError` read from a permission error, the `CONNECT` that answers it, the stream behind an object store, SHA-256 (js-sha256, a copy
-- of another project), `btoa` and `atob`, the codec of keys, and for the dial loop the clock, which
-- addresses answer and the `INFO`s that come in meanwhile. Chunks of an object that are still on their
-- way when a put fails are an operation of the stream, `late`.
--
-- Timers, promises and answers of the server are events, which the theorems take in any order; a
-- deferred is a number or a state that is settled once. What a callback does is not part of the model,
-- only what it is called with.
--
-- Not modelled: drain and close, the listeners of the client's status, idle heartbeats, authentication, services,
-- the transport, and of JetStream the management of streams and consumers, the push consumers, the history
-- and the watches of buckets and object stores. `readFrom` of `DenoBuffer`, which nothing calls, and
-- `parseSemVer`, a regular expression, are left out.
mod Base
pub mod Parser
pub mod Buffer
pub mod DataBuffer
pub mod Protocol
pub mod Nuid
pub mod IpParser
pub mod Semver
pub mod Servers
pub mod Dial
pub mod Heartbeat
pub mod Session
pub mod Iterator
pub mod Mux
pub mod Headers
pub mod JetStream
