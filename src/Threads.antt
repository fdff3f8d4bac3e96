-- ===== src/Threads.antt =====
-- server/internal/threads/threads.go: the chats on disk, one folder for each thread.
pub mod Names
pub mod Folders
pub mod Store
pub mod Approvals
