-- ===== src/AppServer/Conn/Sound/Reading.antt =====
-- internal/appserver/conn.go: the reader's steps keep the connection sound.
use counterpoint.Prelude.{
  ◌≡◌, refl, Bool, true, false, not, ◌&&◌, is_empty, List, [], ◌∷◌, Option, none, some, arith, ltb,
  length, if◌then◌else◌, Result, ok, err, Bool-cases, Option-cases, inl, inr,
}
use counterpoint.Prelude.Int.{ℤ}
use counterpoint.Prelude.Text.{Bytes}
use counterpoint.AppServer.Conn.{
  Envelope, Codec, ConnError, empty, Entry, reading, failing, Conn, Fault, lookup, send_encoded,
  send_from_reader, outbox_size, write_backlog, encode_line,
}
use counterpoint.AppServer.Conn.Dispatch.{
  add_warning, warning_for, reply_to, is_blank, handle_server_request, notify_handlers,
  handle_response, dispatch, read_line,
}
use counterpoint.AppServer.Conn.Steps.{end_reading, shutdown}
use counterpoint.AppServer.Conn.Table.{uses, uses-delete-lookup, put-IsTable, close-IsTable}
use counterpoint.AppServer.Conn.Sound.{
  reader-IsAt, IsSound, Done, first_reason_some, terminate-IsSound, delete-IsSound,
}

send_encoded-IsSound :
    {k : Codec} {c : Conn} (r : Result ConnError Bytes) → IsSound k c → IsSound k (send_encoded r c)
unfolding send_encoded
send_encoded-IsSound (err e) s = terminate-IsSound s e
send_encoded-IsSound {k} {c} (ok line) s = elim (Bool-cases (ltb (length c.outbox) outbox_size)) [
  | inl q ↦ rw q (record { table = s.table; answered = s.answered; ending = s.ending })
  | inr q ↦ rw q (terminate-IsSound s write_backlog)
]

handle_server_request-IsSound :
    (k : Codec) (env : Envelope) {c : Conn}
    → IsSound k c
    → IsSound k (handle_server_request k env c)
unfolding handle_server_request send_from_reader
handle_server_request-IsSound k env {c} s =
    send_encoded-IsSound {c = add_warning (warning_for k env) c} (encode_line k (reply_to env))
      (record { table = s.table; answered = s.answered; ending = s.ending })

handle_response-IsSound :
    {k : Codec} {c : Conn} (env : Envelope) (o : Option ℤ)
    → k.int_of env.id ≡ o
    → IsSound k c
    → Done (IsSound k) (handle_response o env c)
unfolding handle_response
handle_response-IsSound env none q s = s
handle_response-IsSound {k} {c} env (some id) q s = elim (Option-cases (lookup id c.pending)) [
  | inl l ↦ rw l (delete-IsSound s id)
  | inr (n, l) ↦
      let o : c.channels n ≡ empty =
        s.table.unfilled n (omega (arith, uses-delete-lookup n id c.pending l)) in
      rw (l, o)
        (record {
          table = put-IsTable s.table n id env l q;
          answered = s.answered;
          ending = s.ending;
        })
]

if-Done :
    (P : Conn → Type 0) (b : Bool) (x y : Result Fault Conn)
    → Done P x
    → Done P y
    → Done P (if b then x else y)
if-Done P true x y p q = p
if-Done P false x y p q = q

notify_handlers-IsSound :
    {k : Codec} {c : Conn} (env : Envelope) → IsSound k c → IsSound k (notify_handlers env c)
unfolding notify_handlers
notify_handlers-IsSound env s = record { table = s.table; answered = s.answered; ending = s.ending }

dispatch-IsSound :
    {k : Codec} {c : Conn} (env : Envelope) → IsSound k c → Done (IsSound k) (dispatch k env c)
unfolding dispatch
dispatch-IsSound {k} {c} env s =
    if-Done (IsSound k) (not (is_empty env.method) && not (is_empty env.id)) _ _
      (handle_server_request-IsSound k env s)
      (if-Done (IsSound k) (not (is_empty env.method)) _ _ (notify_handlers-IsSound env s) (
        if-Done (IsSound k) (not (is_empty env.id)) _ _
          (handle_response-IsSound env (k.int_of env.id) refl s) s))

line-IsSound :
    {k : Codec} {c : Conn} (o : Option Envelope)
    → IsSound k c
    → Done (IsSound k) (elim o [ none ↦ ok c | some env ↦ dispatch k env c ])
line-IsSound none s = s
line-IsSound (some env) s = dispatch-IsSound env s

pub read_line-IsSound :
    {k : Codec} {c : Conn} (line : Bytes) → IsSound k c → Done (IsSound k) (read_line k line c)
unfolding read_line
read_line-IsSound {k} {c} line s =
    if-Done (IsSound k) (is_blank line) _ _ s (line-IsSound (k.decode line) s)

pub end_reading-IsSound :
    {k : Codec} {c : Conn} (e : ConnError)
    → c.reader ≡ reading
    → IsSound k c
    → IsSound k (end_reading e c)
unfolding end_reading uses
end_reading-IsSound {k} {c} e r s =
    let here = reader-IsAt reading r s in
    record {
      table = record {
        once = λ n. omega (arith, here.at_table.once n);
        unfilled = λ n h. here.at_table.unfilled n (omega arith);
        fresh = λ n h. omega (arith, here.at_table.fresh n h);
        named = tt;
        replies = here.at_table.replies;
      };
      answered = s.answered;
      ending = (here.at_ending, first_reason_some c.exit_err e);
    }

-- A close that the shutdown makes finds its channel open.
pub shutdown-IsSound :
    {k : Codec} {c : Conn} (e : ConnError) (xs : List Entry)
    → c.reader ≡ failing e xs
    → IsSound k c
    → Done (IsSound k) (shutdown e xs c)
unfolding shutdown
shutdown-IsSound {k} {c} e [] r s =
    let here = reader-IsAt (failing e []) r s in
    let (open_still, why) = here.at_ending in
    rw open_still (record { table = here.at_table; answered = s.answered; ending = (refl, why) })
shutdown-IsSound {k} {c} e (x ∷ xs) r s =
    let here = reader-IsAt (failing e (x ∷ xs)) r s in
    let o : c.channels x.channel ≡ empty =
      here.at_table.unfilled x.channel (unfold uses in ground arith) in
    rw o (record {
      table = close-IsTable here.at_table;
      answered = s.answered;
      ending = here.at_ending;
    })
