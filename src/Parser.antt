-- ===== src/Parser.antt =====
-- nats-base-client/parser.ts: the types, the argument parser and the state machine of `Parser`.
-- Byte arrays are values: a `subarray` is the bytes that it shows, and `argBuf` and `msgBuf` are
-- the bytes that a `DenoBuffer` holds. -1 in `sid`, `hdr` and `size` is `none`; numbers are exact,
-- as those of JavaScript are below 2^53. `dispatcher.push(e)` adds `e` to `pushed`.
pub mod Args
pub mod Machine
pub mod Stream
pub mod Chunks
pub mod Frames
pub mod Events
mod Tests
