-- ===== src/JetStream.antt =====
-- jetstream/: the consumers that pull messages. What is published and what is handed to the client is
-- collected.
pub mod Pull
pub mod Ordered
pub mod Tokens
pub mod Acks
pub mod Keys
pub mod Digest
pub mod Objects
