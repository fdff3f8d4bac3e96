-- ===== src/Agent.antt =====
-- server/internal/agent: the tool loop that the chat features share, and the turn around it.
pub mod Turn
pub mod Loop
