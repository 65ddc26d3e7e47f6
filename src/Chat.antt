-- ===== src/Chat.antt =====
-- The chat: socket-common.c, socket-server.c, socket-client.c and socket-server-irc.c.
pub mod Buffer
pub mod Word
pub mod Cipher
pub mod Client
pub mod Server
pub mod Start
pub mod Programs
pub mod Room
