-- ===== src/Tests/Mcp.antt =====
-- The bounded reader at a concrete input.
use counterpoint.Prelude.{ℕ, ◌≡◌, ◌<◌, true, List, [], ◌∷◌, length, is_some}
use counterpoint.Prelude.Text.{codes}
use counterpoint.Mcp.Reader.{Input, line_end, buffer_full, new_bounded_line_reader}
use counterpoint.Mcp.Reader.Framing.{lines, framed, IsPrefix, IsRoomy, read_all, read_all_refines}

-- Two lines, the first in two slices, and a blank one.
abbrev input : Input
input = record {
  slices =
      buffer_full (codes "[1")
      ∷ line_end (codes "]\n")
      ∷ line_end (codes " \n")
      ∷ line_end (codes "2\n")
      ∷ [];
  tail = [];
  eof = true;
}

abbrev sizes : List ℕ
sizes = 2 ∷ 5 ∷ 1 ∷ 9 ∷ 9 ∷ 9 ∷ 9 ∷ []

read_all_refines_example :
    let (ls, rest) = lines [] input.slices input.tail in
    let whole = framed (λ _. true) 10 input.eof ls rest in
    let seen = read_all (λ _. true) sizes (new_bounded_line_reader input 10) in
    IsPrefix whole seen × (IsRoomy sizes → length whole.0 < length sizes → is_some seen.1 ≡ true)
read_all_refines_example = read_all_refines (λ _. true) sizes input 10
