-- ===== src/GitRepo/Command/Limits.antt =====
-- internal/gitrepo/git.go: the limits of a command's output and the environment it runs in.
use counterpoint.Prelude.{
  ℕ, ◌-◌, ◌≤◌, ◌≡◌, Bool, false, List, [], ◌∷◌, length, take, ◌==◌, arith, ok, length-append,
  length-take-le,
}
use counterpoint.Prelude.Text.{Bytes}
use counterpoint.Prelude.Trim.{trim_right, trim_right_by}
use counterpoint.GitRepo.Buffer.{BoundedBuffer, bounded_buffer, write, write_all, limit-write_all}
use counterpoint.GitRepo.Command.{
  Git, Ran, succeeded, exited, interrupted, not_run, result_of, run_bounded_env, run_bounded,
  run_with_limit,
}

write_fits :
    (b : BoundedBuffer) (p : Bytes) → length b.buf ≤ b.limit → length (write b p).buf ≤ b.limit
unfolding write
write_fits b p h = ground (
  arith,
  length-append b.buf p,
  length-append b.buf (take (b.limit - length b.buf) p),
  length-take-le (b.limit - length b.buf) p,
)

write_all_fits :
    (b : BoundedBuffer) (ws : List Bytes)
    → length b.buf ≤ b.limit
    → length (write_all b ws).buf ≤ b.limit
unfolding write_all
write_all_fits b [] h = h
write_all_fits b (p ∷ ws) h =
    ground (arith, write_all_fits (write b p) ws, write_fits b p h, limit-write_all b (p ∷ []))

length-trim_right_by : (test : ℕ → Bool) (s : Bytes) → length (trim_right_by test s) ≤ length s
unfolding trim_right_by
length-trim_right_by test [] = omega arith
length-trim_right_by test (b ∷ s) = ground (arith, length-trim_right_by test s)

length-result_of :
    (limit : ℕ) (r : Ran) (out : Bytes) (truncated : Bool)
    → result_of limit r ≡ ok (out, truncated)
    → length out ≤ limit
unfolding result_of trim_right
length-result_of limit (succeeded ws) out t h = ground (
  arith,
  length-trim_right_by (λ b. b == b'\n') (write_all (bounded_buffer limit) ws).buf,
  write_all_fits (bounded_buffer limit) ws (omega arith),
)
length-result_of limit (exited c ws) out t h = absurd (cc)
length-result_of limit interrupted out t h = absurd (cc)
length-result_of limit not_run out t h = absurd (cc)

pub length-run_with_limit :
    (g : Git) (dir : Bytes) (limit : ℕ) (args : List Bytes) (out : Bytes)
    → run_with_limit g dir limit args ≡ ok out
    → length out ≤ limit
unfolding run_with_limit run_bounded run_bounded_env
length-run_with_limit g dir limit args out h =
    ground (arith, length-result_of limit (g dir [] args) out false)
