-- ===== src/Extension.antt =====
-- src/extension: what the extension of an agent keeps between the client and the session.
pub mod Batcher
pub mod Inbox
pub mod Guards
pub mod Injection
