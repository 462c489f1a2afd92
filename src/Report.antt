-- ===== src/Report.antt =====
-- cmd/counterpoint/usage.go: the report of recorded token usage.
pub mod Saturating
pub mod Grouping
use counterpoint.Prelude.{
  ℕ, zero, suc, ◌+◌, ◌-◌, ◌%◌, Bool, true, false, not, ◌&&◌, ◌||◌, List, [], ◌∷◌, ◌++◌, map, Option,
  none, some, is_empty, is_some, take, length, ltb, leb, ◌==◌, if◌then◌else◌,
}
use counterpoint.Prelude.Int.{ℤ, pos, negsuc, ◌+ℤ◌, ◌-ℤ◌, ltb_ℤ, wrap64, max_int}
use counterpoint.Prelude.Text.{Bytes, codes, eq_text}
use counterpoint.Prelude.Decimal.{format_nat, format_int}
use counterpoint.State.Record.{UsageBreakdown, Usage, HistoryRecord, Workflow}
use counterpoint.State.Store.{Workflows, get}
use counterpoint.State.ObjectId.{is_object_id}

-- One printable round.
pub record Round : Type 0 where
  pub round : ℤ
  pub commit : Bytes
  pub usage : Option Usage

reversed_onto : List Round → List HistoryRecord → List Round
reversed_onto acc [] = acc
reversed_onto acc (h ∷ hs) =
    reversed_onto (record { round = h.round; commit = h.commit; usage = h.usage } ∷ acc) hs

-- The newest review, then the history from its end.
unfoldable pub rounds : Workflow → List Round
unfolding reversed_onto
rounds wf =
    record { round = wf.round; commit = wf.last_commit; usage = wf.last_usage }
    ∷ reversed_onto [] wf.history

unfoldable pub short : Bytes → Bytes
short commit = if is_object_id commit then take 12 commit else commit

unfoldable pub add_saturating : ℤ → ℤ → Bool → ℤ × Bool
add_saturating a b already =
    if ltb_ℤ (wrap64 (pos max_int -ℤ a)) b then (pos max_int, true) else (wrap64 (a +ℤ b), already)

-- The loop over the digits; `first` at the first of them.
unfoldable pub group_digits : Bool → Bytes → Bytes
group_digits first [] = []
group_digits first (c ∷ s) =
    let rest = c ∷ group_digits false s in
    if not first && (length (c ∷ s) % 3 == 0) then b',' ∷ rest else rest

unfoldable pub group : ℤ → Bytes
unfolding group_digits
group (pos n) = group_digits true (format_nat n)
group (negsuc n) = b'-' ∷ group_digits true (format_nat (suc n))

-- a < b, as sort.Strings compares.
before : Bytes → Bytes → Bool
before s [] = false
before [] (_ ∷ _) = true
before (a ∷ s) (b ∷ t) = ltb a b || (a == b && before s t)

insert : Bytes → List Bytes → List Bytes
unfolding before
insert k [] = k ∷ []
insert k (x ∷ xs) = let rest = insert k xs in if before x k then x ∷ rest else k ∷ x ∷ xs

unfoldable pub sorted : List Bytes → List Bytes
unfolding insert
sorted [] = []
sorted (k ∷ ks) = insert k (sorted ks)

-- The running sum of the reports, whether it was clamped, and the rounds counted.
pub record Tally : Type 0 where
  pub sum : ℤ
  pub saturated : Bool
  pub recorded : ℕ

unfoldable pub count_round : Tally → Round → Tally
count_round t r = elim r.usage [
  | none ↦ t
  | some u ↦
      let (sum, saturated) = add_saturating t.sum u.last.total t.saturated in
      record { sum = sum; saturated = saturated; recorded = suc t.recorded }
]

unfoldable pub count_rounds : Tally → List Round → Tally
unfolding count_round
count_rounds t [] = t
count_rounds t (r ∷ rs) = count_rounds (count_round t r) rs

-- %-4d
padded : Bytes → Bytes
padded s = s ++ spaces (4 - length s)
  where
    spaces : ℕ → Bytes
    spaces zero = []
    spaces (suc n) = b' ' ∷ spaces n

unfoldable pub round_line : Round → Bytes
unfolding padded
round_line r =
    codes "  round "
    ++ (padded (format_int r.round)
        ++ (codes " "
            ++ (short r.commit ++ elim r.usage [
              | none ↦ codes "  not recorded\n"
              | some u ↦
                  let l = u.last in
                  codes "  last report "
                  ++ (group l.total
                      ++ (codes " tokens  (input "
                          ++ (group l.input
                              ++ (codes ", cached "
                                  ++ (group l.cached
                                      ++ (codes ", output "
                                          ++ (group l.output
                                              ++ (codes ", reasoning "
                                                  ++ (group l.reasoning ++ codes ")\n")))))))))
            ])))

concat : List Bytes → Bytes
concat [] = []
concat (s ∷ ss) = s ++ concat ss

unfoldable pub workflow_lines : Bytes → Workflow → Bytes
unfolding concat
workflow_lines k wf =
    codes "\n"
    ++ (k
        ++ (codes "\n"
            ++ (concat (map round_line (rounds wf)) ++ elim wf.last_usage [
              | none ↦ []
              | some u ↦
                  codes "  thread total reported at round "
                  ++ (format_int wf.round
                      ++ (codes ": " ++ (group u.total.total ++ codes " tokens\n")))
            ])))

all_lines : Workflows → List Bytes → Bytes
all_lines ws [] = []
all_lines ws (k ∷ ks) =
    elim (get ws k) [ none ↦ [] | some wf ↦ workflow_lines k wf ] ++ all_lines ws ks

unfoldable pub all_rounds : Workflows → List Bytes → List Round
all_rounds ws [] = []
all_rounds ws (k ∷ ks) = elim (get ws k) [ none ↦ [] | some wf ↦ rounds wf ] ++ all_rounds ws ks

abbrev pub no_tally : Tally
no_tally = record { sum = pos 0; saturated = false; recorded = 0 }

keys_of : Workflows → List Bytes
keys_of [] = []
keys_of ((k, _) ∷ ws) = k ∷ keys_of ws

unfoldable pub sum_lines : ℕ → Tally → Bytes
sum_lines workflows t =
    codes "\n"
    ++ (format_nat workflows
        ++ (codes " workflow(s), "
            ++ (format_nat t.recorded
                ++ (codes " recorded round(s).\n"
                    ++ ((if t.saturated
                          then codes
                              "Sum of last reports: more than can be represented; at least one reported counter is implausibly large.\n"
                          else codes "Sum of last reports: " ++ (group t.sum ++ codes " tokens.\n"))
                        ++ (codes
                              "A last report may cover only the final model request of a turn rather than\n"
                            ++ (codes
                                  "the whole turn, so treat these as reported figures and the sum as a lower\n"
                                ++ codes "bound, not as measured round costs.\n")))))))

-- The text that writeUsage writes.
unfoldable pub usage_report : Workflows → Bytes → Bytes
unfolding all_lines keys_of
usage_report ws path =
    let keys = sorted (keys_of ws) in
    codes "Counterpoint token usage from "
    ++ (path
        ++ (codes "\n"
            ++ (codes "Completed rounds only; failed and interrupted rounds are not recorded.\n"
                ++ (codes
                      "Every figure is what the app-server reported, not a cost Counterpoint measured.\n"
                    ++ (all_lines ws keys
                        ++ (if is_empty keys
                            then codes "\nNo workflows recorded yet.\n"
                            else sum_lines (length keys)
                                (count_rounds no_tally (all_rounds ws keys))))))))
