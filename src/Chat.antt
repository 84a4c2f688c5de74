-- ===== src/Chat.antt =====
-- 00-network-programming/examples/chat: the linked list and the client.
pub mod LList
pub mod Client
