-- ===== src/Preview.antt =====
-- server/internal/preview: the manager of the browser previews (worker.go) and the janitor that
-- removes the containers nobody owns (janitor.go).
pub mod Manager
pub mod Janitor
