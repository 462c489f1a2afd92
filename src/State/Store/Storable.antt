-- ===== src/State/Store/Storable.antt =====
-- The states that JSON keeps, and what encoding/json documents of their round trip.
use counterpoint.Prelude.{◌≡◌, true, Option, none, some, All, ◌++◌}
use counterpoint.Prelude.Text.{Bytes, codes}
use counterpoint.State.Store.{Workflows, Codec, Envelope, get, version}
use counterpoint.Prelude.Int.{ℤ, wrap64}
use counterpoint.GitRepo.Utf8.{valid_string}
use counterpoint.State.Record.{UsageBreakdown, Usage, HistoryRecord, Workflow}

abbrev pub envelope_of : Workflows → Envelope
envelope_of m = record { version = version; workflows = some m }

-- The Go values that JSON keeps: texts in UTF-8 and numbers of 64 bits.
abbrev IsUtf8 : Bytes → Type 0
IsUtf8 s = valid_string s ≡ true

abbrev pub IsInt64 : ℤ → Type 0
IsInt64 n = n ≡ wrap64 n

pub record IsStorableCounters (b : UsageBreakdown) : Type 0 where
  pub input_fits : IsInt64 b.input
  pub cached_fits : IsInt64 b.cached
  pub cache_write_fits : IsInt64 b.cache_write
  pub output_fits : IsInt64 b.output
  pub reasoning_fits : IsInt64 b.reasoning
  pub total_fits : IsInt64 b.total

abbrev pub IsStorableUsage : Option Usage → Type 0
IsStorableUsage none = Unit {0}
IsStorableUsage (some u) = IsStorableCounters u.last × IsStorableCounters u.total

pub record IsStorableRecord (r : HistoryRecord) : Type 0 where
  pub round_fits : IsInt64 r.round
  pub commit_text : IsUtf8 r.commit
  pub base_text : IsUtf8 r.base
  pub review_text : IsUtf8 r.review
  pub omitted_text : IsUtf8 r.omitted
  pub usage_fits : IsStorableUsage r.usage

pub record IsStorableWorkflow (w : Workflow) : Type 0 where
  pub thread_text : IsUtf8 w.thread_id
  pub commit_text : IsUtf8 w.last_commit
  pub base_text : IsUtf8 w.last_base
  pub hash_text : IsUtf8 w.last_request_hash
  pub round_fits : IsInt64 w.round
  pub review_text : IsUtf8 w.last_review
  pub warning_texts : All IsUtf8 w.last_warnings
  pub usage_fits : IsStorableUsage w.last_usage
  pub history_fits : All IsStorableRecord w.history

abbrev pub IsStorable : Workflows → Type 0
IsStorable = All (λ (e : Bytes × Workflow). IsUtf8 e.0 × IsStorableWorkflow e.1)

-- The two states have the same record under every key.
abbrev pub SameRecords : Workflows → Workflows → Type 0
SameRecords m' m = (key : Bytes) → get m' key ≡ get m key

-- What encoding/json documents: a text that it writes for such a state is read back, also with a
-- newline behind it, as a map with the same entries.
abbrev pub RoundTrips : Codec → Type 0
RoundTrips c =
    (m : Workflows) (text : Bytes)
    → IsStorable m
    → c.encode (envelope_of m) ≡ some text
    → (m' : Workflows) × (c.decode (text ++ codes "\n") ≡ some (envelope_of m')) × SameRecords m' m
