-- ===== src/State/History.antt =====
-- internal/state/history.go: the bounds on the review history, eviction and validation.
pub mod Retain
pub mod Ledger
use counterpoint.Prelude.{
  ℕ, zero, suc, ◌+◌, ◌≡◌, Bool, true, false, not, ◌&&◌, ◌||◌, List, [], ◌∷◌, ◌++◌, Option, none,
  some, length, is_empty, ltb, if◌then◌else◌,
}
use counterpoint.Prelude.Int.{ℤ, pos, negsuc, wrap64, ◌+ℤ◌, ◌-ℤ◌, eqb_ℤ, ltb_ℤ}
use counterpoint.Prelude.Text.{Bytes, codes, eq_text}
use counterpoint.State.Record.{UsageBreakdown, Usage, HistoryRecord, Workflow}
use counterpoint.State.ObjectId.{is_object_id}

abbrev pub max_history_records : ℕ
max_history_records = 2

abbrev pub max_history_record_bytes : ℕ
max_history_record_bytes = 24576

abbrev pub max_history_bytes : ℕ
max_history_bytes = 49152

abbrev pub omitted_too_large : Bytes
omitted_too_large = codes "too-large"

pub data Counter : Type 0 where
  input cached cache_write output reasoning total : Counter

abbrev is_negative : ℤ → Bool
is_negative v = ltb_ℤ v (pos 0)

-- The first counter below zero.
unfoldable pub negative_counter : UsageBreakdown → Option Counter
negative_counter b =
    if is_negative b.input
    then some input
    else if is_negative b.cached
    then some cached
    else if is_negative b.cache_write
    then some cache_write
    else if is_negative b.output
    then some output
    else if is_negative b.reasoning
    then some reasoning
    else if is_negative b.total
    then some total
    else none

-- What `Invalid` names: a counter of the last report or of the total.
pub data BadUsage : Type 0 where
  last_counter total_counter : Counter → BadUsage

invalid_parts : Option Counter → Option Counter → Option BadUsage
invalid_parts (some c) _ = some (last_counter c)
invalid_parts none (some c) = some (total_counter c)
invalid_parts none none = none

unfoldable pub invalid : Option Usage → Option BadUsage
unfolding negative_counter invalid_parts
invalid none = none
invalid (some u) = invalid_parts (negative_counter u.last) (negative_counter u.total)

unfoldable pub injected_bytes : HistoryRecord → ℕ
injected_bytes r = length r.review

unfoldable pub new_history_record : ℤ → Bytes → Bytes → Bytes → Option Usage → HistoryRecord
new_history_record round commit base review usage =
    if ltb max_history_record_bytes (length review)
    then record {
      round = round;
      commit = commit;
      base = base;
      review = [];
      omitted = omitted_too_large;
      usage = usage;
    }
    else record {
      round = round;
      commit = commit;
      base = base;
      review = review;
      omitted = [];
      usage = usage;
    }

unfoldable pub history_bytes : List HistoryRecord → ℕ
unfolding injected_bytes
history_bytes [] = 0
history_bytes (r ∷ rs) = injected_bytes r + history_bytes rs

-- The bytes that a prompt quotes for the newest review.
unfoldable pub newest_bytes : Bytes → ℕ
unfolding injected_bytes new_history_record
newest_bytes review = injected_bytes (new_history_record (pos 0) [] [] review none)

-- The guard of the eviction loop.
abbrev pub over_limit : List HistoryRecord → ℕ → Bool
over_limit out newest =
    ltb max_history_records (length out) || ltb max_history_bytes (history_bytes out + newest)

-- The eviction loop. On the empty slice the guard of the source is false, because a newest review
-- alone is within the bound; the clause states where `out[1:]` would be out of range.
unfoldable pub evict : List HistoryRecord → ℕ → List HistoryRecord
evict [] newest = []
evict (r ∷ rs) newest =
    let rest = evict rs newest in if over_limit (r ∷ rs) newest then rest else r ∷ rs

-- The nil slice and the empty one are both `[]`.
unfoldable pub retain_history : List HistoryRecord → HistoryRecord → Bytes → List HistoryRecord
retain_history history previous newest_review =
    evict (history ++ (previous ∷ [])) (newest_bytes newest_review)

-- The ways in which `InvalidHistory` refuses a record, each at its index.
pub data Defect : Type 0 where
  too_many : ℕ → Defect
  wrong_round round_below_one invalid_commit invalid_base both neither unknown_reason : ℕ → Defect
  record_too_large negative_record_usage : ℕ → Defect
  negative_last_usage : BadUsage → Defect
  too_many_bytes : ℕ → Defect

record_usage_defect : ℕ → Option BadUsage → Option Defect
record_usage_defect i none = none
record_usage_defect i (some _) = some (negative_record_usage i)

-- The `switch` on one record: index i, expected round `want`.
unfoldable pub record_defect : ℕ → ℤ → HistoryRecord → Option Defect
unfolding record_usage_defect
record_defect i want r =
    if not (eqb_ℤ r.round want)
    then some (wrong_round i)
    else if ltb_ℤ want (pos 1)
    then some (round_below_one i)
    else if not (is_object_id r.commit)
    then some (invalid_commit i)
    else if not (is_object_id r.base)
    then some (invalid_base i)
    else if not (is_empty r.review) && not (is_empty r.omitted)
    then some (both i)
    else if is_empty r.review && is_empty r.omitted
    then some (neither i)
    else if not (is_empty r.omitted) && not (eq_text r.omitted omitted_too_large)
    then some (unknown_reason i)
    else if ltb max_history_record_bytes (length r.review)
    then some (record_too_large i)
    else record_usage_defect i (invalid r.usage)

-- w.Round - len(h) + i, in 64 bits
unfoldable pub want_round : ℤ → ℕ → ℕ → ℤ
want_round round n i = wrap64 (wrap64 (round -ℤ pos n) +ℤ pos i)

abbrev or_else {ℓ} : {A : Type ℓ} → Option A → Option A → Option A
or_else none o = o
or_else (some a) _ = some a

-- The loop over the records from index i, of a history of n.
unfoldable pub records_defect : ℤ → ℕ → ℕ → List HistoryRecord → Option Defect
unfolding want_round
records_defect round n i [] = none
records_defect round n i (r ∷ rs) =
    or_else (record_defect i (want_round round n i) r) (records_defect round n (i + 1) rs)

last_usage_defect : Option BadUsage → Option Defect
last_usage_defect none = none
last_usage_defect (some c) = some (negative_last_usage c)

total_defect : ℕ → Option Defect
total_defect bytes = if ltb max_history_bytes bytes then some (too_many_bytes bytes) else none

unfoldable pub invalid_history : Workflow → Option Defect
unfolding last_usage_defect total_defect
invalid_history w =
    if ltb max_history_records (length w.history)
    then some (too_many (length w.history))
    else or_else (records_defect w.round (length w.history) 0 w.history) (
        or_else (last_usage_defect (invalid w.last_usage))
          (total_defect (history_bytes w.history + newest_bytes w.last_review)))
