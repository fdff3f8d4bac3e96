-- ===== src/Sync/Errors.antt =====
-- server/internal/sync/errors.go: the coded errors, with the values that their messages name.
-- `io` stands for an error of the operating system or of git that is passed on.
use pocket_coder.Prelude.{Str, length, ltb, take, if◌then◌else◌}

pub data SyncError : Type 0 where
  project_not_found : Str → SyncError
  code_invalid code_expired code_used sync_running https_required detached_head : SyncError
  not_git_repo session_unknown session_expired : SyncError
  code_wrong_project branch_mismatch commit_mismatch remote_mismatch : Str → Str → SyncError
  bad_plan bad_payload : Str → SyncError
  io : Str → SyncError

-- The commit form that users see.
unfoldable pub short_sha : Str → Str
short_sha sha = if ltb 7 (length sha) then take 7 sha else sha
