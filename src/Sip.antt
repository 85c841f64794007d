-- ===== src/Sip.antt =====
-- The debugger of SIP calls (src/debugger/sip): the sessions and what is stored for them, the listener
-- of packets, and the parser of messages.
pub mod Sessions
pub mod Listener
pub mod Parser
mod Tests
