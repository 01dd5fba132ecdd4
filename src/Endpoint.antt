-- ===== src/Endpoint.antt =====
-- internal/endpoint/smtp: the SMTP and LMTP sessions. `Reply` is what an error becomes on the wire,
-- `Session` the commands.
pub mod Reply
pub mod Session
