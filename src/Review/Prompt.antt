-- ===== src/Review/Prompt.antt =====
-- The request to the reviewer, `Prompt` of internal/review/prompt.go.
pub mod Delimiters
use counterpoint.Prelude.{Bool, List}
use counterpoint.Prelude.Int.{ℤ}
use counterpoint.Prelude.Text.{Bytes}
use counterpoint.State.Record.{HistoryRecord}

pub record Prompt : Type 0 where
  pub round : ℤ
  pub worktree : Bytes
  pub branch_ref : Bytes
  pub commit : Bytes
  pub base : Bytes
  pub primary_name : Bytes
  pub primary_ref : Bytes
  pub previous_tip : Bytes
  pub history_rewritten : Bool
  pub branch_notes : Bytes
  pub checkout : Bytes
  pub cache_dir : Bytes
  pub history : List HistoryRecord
  pub omitted_rounds : ℤ
  pub instructions : Bytes
