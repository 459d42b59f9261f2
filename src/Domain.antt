-- ===== src/Domain.antt =====
-- src/internal/domain/models.go: the plain types that the components share.
-- A score is a Go `float64`; its type is a parameter, and so are the comparisons on it.
use st_air_case.Prelude.{ℕ, ℤ, String, Bool, List}

-- One search-and-replace change that an agent wants to make.
pub record ProposedEdit : Type 0 where
  pub file : String
  pub search_block : String
  pub replace_block : String
  pub content_hash : String
  pub content_b64 : String
  pub file_mode : String
  pub binary_bytes : ℕ
  pub binary_sha256 : String

-- The fields of a YieldRequest that decisions read.
pub record YieldRequest (Score : Type 0) : Type 0 where
  pub agent_name : String
  pub action_type : String
  pub proposed_edits : List ProposedEdit
  pub reasoning_trace : String
  pub confidence_score : Score
  pub batch_id : String
  pub review_after : Bool
  pub sandboxed : Bool
  pub drift : String
  pub guard_note : String
  pub review_note : String
  pub adopts : ℤ

abbrev pub action_file_edit : String
action_file_edit = "file_edit"

abbrev pub action_shell_exec : String
action_shell_exec = "shell_exec"

abbrev pub action_tool_call : String
action_tool_call = "tool_call"

abbrev pub action_final_review : String
action_final_review = "final_review"

-- The status of a run, as its `run_path` entry and its row name it.
abbrev pub run_status_running : String
run_status_running = "RUNNING"

abbrev pub run_status_success : String
run_status_success = "SUCCESS"

abbrev pub run_status_failed : String
run_status_failed = "FAILED"

abbrev pub run_status_killed : String
run_status_killed = "KILLED"

abbrev pub run_status_awaiting_review : String
run_status_awaiting_review = "AWAITING_REVIEW"
