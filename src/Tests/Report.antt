-- ===== src/Tests/Report.antt =====
-- The usage report at concrete rounds.
use counterpoint.Prelude.{
  ◌≡◌, ◌+◌, ◌-◌, ◌/◌, [], ◌∷◌, List, length, some, none, ltb, leb, if◌then◌else◌, arith,
}
use counterpoint.Prelude.Int.{pos, max_int}
use counterpoint.Prelude.Text.{codes}
use counterpoint.Prelude.Decimal.{format_int, format_nat}
use counterpoint.State.Record.{UsageBreakdown}
use counterpoint.Report.{Round, group, count_rounds, no_tally}
use counterpoint.Report.Saturating.{count_rounds_exact, exact_sum, exact_count}
use counterpoint.Report.Grouping.{IsPlaced, ungrouped, ungrouped-group}

abbrev huge : UsageBreakdown
huge = record {
  input = pos 0;
  cached = pos 0;
  cache_write = pos 0;
  output = pos 0;
  reasoning = pos 0;
  total = pos max_int;
}

abbrev reported : Round
reported = record {
  round = pos 2;
  commit = codes "c";
  usage = some (record { last = huge; total = huge });
}

abbrev three_rounds : List Round
three_rounds = reported ∷ record { round = pos 1; commit = codes "b"; usage = none } ∷ reported ∷ []

count_rounds_exact_example : count_rounds no_tally three_rounds ≡ record {
  sum = pos (if leb (exact_sum three_rounds) max_int then exact_sum three_rounds else max_int);
  saturated = ltb max_int (exact_sum three_rounds);
  recorded = exact_count three_rounds;
}
count_rounds_exact_example = count_rounds_exact three_rounds (omega arith, (tt, (omega arith, tt)))

ungrouped-group_example :
    (ungrouped (group (pos 1234567)) ≡ format_int (pos 1234567))
    × IsPlaced (group (pos 1234567))
    × (length (group (pos 1234567))
        ≡ length (format_int (pos 1234567)) + (length (format_nat 1234567) - 1) / 3)
ungrouped-group_example = ungrouped-group (pos 1234567)
