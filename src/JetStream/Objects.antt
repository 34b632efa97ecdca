-- ===== src/JetStream/Objects.antt =====
-- jetstream/objectstore.ts: `ObjectStoreImpl`, objects kept as chunks and one metadata entry in a stream.
pub mod Server
pub mod Upload
pub mod Download
pub mod Manage
pub mod Sent
pub mod Kept
pub mod Received
pub mod Puts
pub mod RoundTrip
pub mod Failures
pub mod Limits
pub mod Changes
pub mod Renames
pub mod Sample
mod Tests
