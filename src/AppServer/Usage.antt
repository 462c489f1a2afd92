-- ===== src/AppServer/Usage.antt =====
-- Token usage on the wire: `usageBreakdown`, `tokenUsageNotification` and `errorNotification` of
-- internal/appserver/wire.go. A pointer that JSON leaves nil is `none`. `Usage` of client.go has the
-- fields of the persisted one, and is that type here.
use counterpoint.Prelude.{◌≡◌, Bool, true, false, not, ◌&&◌, Option, none, some, arith}
use counterpoint.Prelude.Int.{ℤ, pos, ltb_ℤ}
use counterpoint.State.Record.{UsageBreakdown, Usage}
use counterpoint.State.History.{invalid, negative_counter}

pub record WireBreakdown : Type 0 where
  pub input_tokens : Option ℤ
  pub cached_input_tokens : Option ℤ
  pub cache_write_input_tokens : Option ℤ
  pub output_tokens : Option ℤ
  pub reasoning_output_tokens : Option ℤ
  pub total_tokens : Option ℤ

-- `tokenUsage` of the notification.
pub record WireUsage : Type 0 where
  pub last : Option WireBreakdown
  pub total : Option WireBreakdown

-- c != nil && *c >= 0
required : Option ℤ → Bool
required none = false
required (some c) = not (ltb_ℤ c (pos 0))

optional : Option ℤ → Bool
optional none = true
optional (some c) = not (ltb_ℤ c (pos 0))

unfoldable pub valid_breakdown : Option WireBreakdown → Bool
unfolding required optional
valid_breakdown none = false
valid_breakdown (some b) =
    required b.input_tokens
    && (required b.cached_input_tokens
        && (required b.output_tokens
            && (required b.reasoning_output_tokens
                && (required b.total_tokens && optional b.cache_write_input_tokens))))

unfoldable pub valid : Option WireUsage → Bool
unfolding valid_breakdown
valid none = false
valid (some u) = valid_breakdown u.last && valid_breakdown u.total

at : Option ℤ → ℤ
at none = pos 0
at (some c) = c

unfoldable pub resolve : Option WireBreakdown → UsageBreakdown
unfolding at
resolve none = record {
  input = pos 0;
  cached = pos 0;
  cache_write = pos 0;
  output = pos 0;
  reasoning = pos 0;
  total = pos 0;
}
resolve (some b) = record {
  input = at b.input_tokens;
  cached = at b.cached_input_tokens;
  cache_write = at b.cache_write_input_tokens;
  output = at b.output_tokens;
  reasoning = at b.reasoning_output_tokens;
  total = at b.total_tokens;
}

wire_part : (WireUsage → Option WireBreakdown) → Option WireUsage → Option WireBreakdown
wire_part part none = none
wire_part part (some u) = part u

-- The usage that the watcher keeps of a valid report.
unfoldable pub resolve_usage : Option WireUsage → Usage
unfolding resolve wire_part
resolve_usage u = record {
  last = resolve (wire_part (λ v. v.last) u);
  total = resolve (wire_part (λ v. v.total) u);
}

resolve-valid :
    (b : Option WireBreakdown) → valid_breakdown b ≡ true → negative_counter (resolve b) ≡ none
unfolding valid_breakdown resolve negative_counter
resolve-valid none h = absurd (cc)
resolve-valid (some b) h = ground arith

-- A report that passes `valid` has no negative counter, as the state file demands.
pub invalid-resolve_usage :
    (u : Option WireUsage) → valid u ≡ true → invalid (some (resolve_usage u)) ≡ none
unfolding valid resolve_usage invalid
invalid-resolve_usage none h = absurd (cc)
invalid-resolve_usage (some u) h = ground (arith, resolve-valid u.last, resolve-valid u.total)
