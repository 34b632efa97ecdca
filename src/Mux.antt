-- ===== src/Mux.antt =====
-- nats-base-client/muxsubscription.ts, request.ts and `isRequestError` of msg.ts: requests that share
-- one subscription. The request objects live in a store and are named by their place in it; the map of
-- the multiplexer holds these names under the tokens. What a callback is called with, and how a
-- deferred is settled, is collected. The deferred `done` calls back behind the code that resolves it.
pub mod Requests
pub mod Table
pub mod Store
pub mod Live
pub mod Replies
mod Tests
