-- ===== src/Mcp/Reader.antt =====
-- `boundedLineReader` of internal/mcpserver/server.go. What bufio's ReadSlice returns and json.Valid
-- are arguments.
pub mod Framing
use counterpoint.Prelude.{
  ℕ, suc, ◌+◌, Bool, true, false, not, List, [], ◌∷◌, ◌++◌, Option, none, some, is_empty, length,
  take, drop, ltb, if◌then◌else◌, Result, ok, err,
}
use counterpoint.Prelude.Text.{Bytes}
use counterpoint.Prelude.Trim.{trim_space}

-- One slice: up to a newline, or a full buffer without one.
pub data Slice : Type 0 where
  line_end buffer_full : Bytes → Slice

-- The input that is still to be read: its slices, and then the last bytes with EOF or with a failure.
pub record Input : Type 0 where
  pub slices : List Slice
  pub tail : Bytes
  pub eof : Bool

pub data ReadError : Type 0 where
  end_of_input request_too_large request_framing read_failed : ReadError

pub record BoundedLineReader : Type 0 where
  pub input : Input
  pub limit : ℕ
  pub buf : Bytes
  pub failed : Option ReadError

abbrev pub new_bounded_line_reader : Input → ℕ → BoundedLineReader
new_bounded_line_reader input limit = record {
  input = input;
  limit = limit;
  buf = [];
  failed = none;
}

unfoldable pub is_blank : Bytes → Bool
is_blank line = is_empty (trim_space line)

too_long : ℕ → Bytes → Bool
too_long limit line = ltb (limit + 1) (length line)

-- The end of the input, with the unterminated line.
unfoldable pub last_line : ℕ → Bool → Bytes → ReadError
unfolding too_long
last_line limit eof line =
    if too_long limit line
    then request_too_large
    else if eof
    then (if is_blank line then end_of_input else request_framing)
    else read_failed

-- nextLine, with the part of the line that is read; the slices that are left come with the result.
unfoldable pub next_line :
    (Bytes → Bool) → ℕ → Bytes → Bool → Bytes → List Slice → Result ReadError Bytes × List Slice
unfolding too_long last_line
next_line valid limit tail eof line [] = (err (last_line limit eof (line ++ tail)), [])
next_line valid limit tail eof line (buffer_full s ∷ slices) =
    let rest = next_line valid limit tail eof (line ++ s) slices in
    if too_long limit (line ++ s) then (err request_too_large, slices) else rest
next_line valid limit tail eof line (line_end s ∷ slices) =
    let rest = next_line valid limit tail eof [] slices in
    if too_long limit (line ++ s)
    then (err request_too_large, slices)
    else if is_blank (line ++ s)
    then rest
    else if valid (trim_space (line ++ s))
    then (ok (line ++ s), slices)
    else (err request_framing, slices)

deliver : ℕ → BoundedLineReader → Result ReadError Bytes × BoundedLineReader
deliver n b = (ok (take n b.buf), record b { buf = drop n b.buf })

fill :
    ℕ
    → BoundedLineReader
    → Result ReadError Bytes × List Slice
    → Result ReadError Bytes × BoundedLineReader
unfolding deliver
fill n b (err e, slices) = (
  err e,
  record b {
    input = record { slices = slices; tail = b.input.tail; eof = b.input.eof };
    failed = some e;
  },
)
fill n b (ok line, slices) = deliver n (record b {
  input = record { slices = slices; tail = b.input.tail; eof = b.input.eof };
  buf = line;
})

read_open : (Bytes → Bool) → ℕ → BoundedLineReader → Result ReadError Bytes × BoundedLineReader
unfolding fill deliver
read_open valid n b =
    if is_empty b.buf
    then fill n b (next_line valid b.limit b.input.tail b.input.eof [] b.input.slices)
    else deliver n b

-- Read into a buffer of n bytes.
unfoldable pub read :
    (Bytes → Bool) → ℕ → BoundedLineReader → Result ReadError Bytes × BoundedLineReader
unfolding read_open
read valid n b = elim b.failed [ some e ↦ (err e, b) | none ↦ read_open valid n b ]
