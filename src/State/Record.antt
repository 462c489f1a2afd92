-- ===== src/State/Record.antt =====
-- The persisted records of internal/state/state.go and history.go.
use counterpoint.Prelude.{Bool, true, false, ◌&&◌, List, [], ◌∷◌, Option, none}
use counterpoint.Prelude.Int.{ℤ}
use counterpoint.Prelude.Text.{Bytes, eq_text}

-- One set of token counters, each an int64.
pub record UsageBreakdown : Type 0 where
  pub input : ℤ
  pub cached : ℤ
  pub cache_write : ℤ
  pub output : ℤ
  pub reasoning : ℤ
  pub total : ℤ

pub record Usage : Type 0 where
  pub last : UsageBreakdown
  pub total : UsageBreakdown

-- One completed earlier round. The empty text stands for an unset `review` or `omitted`.
pub record HistoryRecord : Type 0 where
  pub round : ℤ
  pub commit : Bytes
  pub base : Bytes
  pub review : Bytes
  pub omitted : Bytes
  pub usage : Option Usage

pub record Workflow : Type 0 where
  pub thread_id : Bytes
  pub last_commit : Bytes
  pub last_base : Bytes
  pub last_request_hash : Bytes
  pub round : ℤ
  pub last_review : Bytes
  pub last_warnings : List Bytes
  pub last_usage : Option Usage
  pub history : List HistoryRecord

-- Workflow{}: what a lookup of an unknown key returns.
abbrev pub empty_workflow : Workflow
empty_workflow = record {
  thread_id = [];
  last_commit = [];
  last_base = [];
  last_request_hash = [];
  round = ℤ.pos 0;
  last_review = [];
  last_warnings = [];
  last_usage = none;
  history = [];
}

-- slices.Equal on lists of texts
unfoldable pub equal : List Bytes → List Bytes → Bool
equal [] [] = true
equal [] (_ ∷ _) = false
equal (_ ∷ _) [] = false
equal (s ∷ ss) (t ∷ ts) = eq_text s t && equal ss ts
