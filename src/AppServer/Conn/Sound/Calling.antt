-- ===== src/AppServer/Conn/Sound/Calling.antt =====
-- internal/appserver/conn.go: the steps of a call keep the connection sound.
use counterpoint.Prelude.{
  ℕ, ◌≡◌, refl, subst, Bool, true, false, ◌||◌, Option, none, some, ltb, length, if◌then◌else◌,
  Result, ok, err, Bool-cases, inl, inr,
}
use counterpoint.Prelude.Text.{Bytes}
use counterpoint.AppServer.Conn.{
  request, closed_err, Codec, ConnError, Channel, unmade, empty, closed_channel, holding, CallError,
  sending, connection, context_ended, Phase, unborn, registered, queueing, waiting, leaving,
  returned, Conn, delete, outbox_size, encode_line,
}
use counterpoint.AppServer.Conn.Calls.{
  prepared, received, awaited, id_of, set_phase, prepare, Case, message_case, context_case,
  closed_case, send, outcome_of, await, leave, enqueue,
}
use counterpoint.AppServer.Conn.Table.{receive-IsTable}
use counterpoint.AppServer.Conn.Sound.{
  IsAnswered, IsSound, matched-IsOwn, update_answered, set_phase-IsSound, delete-IsSound,
}

-- A step of a call, which is a fault in no case.
abbrev pub Moves : (Conn → Type 0) → Conn → Option Conn → Type 0
Moves Holds c none = Holds c
Moves Holds c (some c') = Holds c'

if-Moves :
    (Holds : Conn → Type 0) (c : Conn) (b : Bool) (x y : Option Conn)
    → Moves Holds c x
    → Moves Holds c y
    → Moves Holds c (if b then x else y)
if-Moves Holds c true x y m n = m
if-Moves Holds c false x y m n = n

module _ {k : Codec} {c : Conn} (s : IsSound k c) where
  prepared-IsSound : (n : ℕ) (r : Result ConnError Bytes) → IsSound k (prepared n r c)
  unfolding prepared
  prepared-IsSound n (err e) = set_phase-IsSound s n (leaving (sending e)) tt
  prepared-IsSound n (ok line) = elim (Bool-cases (c.closed || c.writer_done)) [
    | inl q ↦ rw q (set_phase-IsSound s n (leaving (sending (closed_err c))) tt)
    | inr q ↦ rw q (set_phase-IsSound s n (queueing line) tt)
  ]

  at_registered :
      (p : Phase) (c' : Conn)
      → IsSound k c'
      → Moves (IsSound k) c (elim p [ registered ↦ some c' | _ ↦ none ])
  at_registered registered c' t = t
  at_registered unborn c' t = s
  at_registered (queueing line) c' t = s
  at_registered waiting c' t = s
  at_registered (leaving e) c' t = s
  at_registered (returned r) c' t = s

  pub prepare-IsSound :
      (n : ℕ) (method params : Bytes) → Moves (IsSound k) c (prepare k n method params c)
  unfolding prepare
  prepare-IsSound n method params =
      at_registered (c.calls n) _
        (prepared-IsSound n (encode_line k (request (id_of n) method params)))

  enqueue-IsSound :
      (n : ℕ) (line : Bytes) (which : Case) → Moves (IsSound k) c (enqueue n line which c)
  unfolding enqueue
  enqueue-IsSound n line message_case = elim (Bool-cases (ltb (length c.outbox) outbox_size)) [
    | inl q ↦
        rw q
          (record { table = s.table; answered = update_answered s n waiting tt; ending = s.ending })
    | inr q ↦ rw q s
  ]
  enqueue-IsSound n line context_case = set_phase-IsSound s n (leaving context_ended) tt
  enqueue-IsSound n line closed_case =
      if-Moves (IsSound k) c (c.closed || c.writer_done) _ _
        (set_phase-IsSound s n (leaving (sending (closed_err c))) tt) s

  at_queueing :
      (n : ℕ) (which : Case) (p : Phase)
      → Moves (IsSound k) c (elim p [ queueing line ↦ enqueue n line which c | _ ↦ none ])
  at_queueing n which registered = s
  at_queueing n which unborn = s
  at_queueing n which (queueing line) = enqueue-IsSound n line which
  at_queueing n which waiting = s
  at_queueing n which (leaving e) = s
  at_queueing n which (returned r) = s

  pub send-IsSound : (n : ℕ) (which : Case) → Moves (IsSound k) c (send n which c)
  unfolding send
  send-IsSound n which = at_queueing n which (c.calls n)

  received-IsSound :
      (n : ℕ) (wanted : Bool) (ch : Channel)
      → c.channels n ≡ ch
      → Moves (IsSound k) c (received k n wanted ch c)
  unfolding received
  received-IsSound n wanted unmade q = s
  received-IsSound n wanted empty q = s
  received-IsSound n wanted (holding env) q =
      let r = outcome_of k wanted env in
      record {
        table = receive-IsTable s.table n env q;
        answered =
            update_answered s n (returned r)
              (matched-IsOwn k n r (env, wanted, s.table.replies n env q, refl));
        ending = s.ending;
      }
  received-IsSound n wanted closed_channel q =
      set_phase-IsSound s n (returned (err (connection (closed_err c)))) tt

  awaited-IsSound :
      (n : ℕ) (wanted : Bool) (which : Case) → Moves (IsSound k) c (awaited k n wanted which c)
  unfolding awaited
  awaited-IsSound n wanted message_case = received-IsSound n wanted (c.channels n) refl
  awaited-IsSound n wanted context_case = set_phase-IsSound s n (leaving context_ended) tt
  awaited-IsSound n wanted closed_case =
      if-Moves (IsSound k) c c.closed _ _
        (set_phase-IsSound s n (returned (err (connection (closed_err c)))) tt) s

  at_waiting :
      (p : Phase) (o : Option Conn)
      → Moves (IsSound k) c o
      → Moves (IsSound k) c (elim p [ waiting ↦ o | _ ↦ none ])
  at_waiting registered o t = s
  at_waiting unborn o t = s
  at_waiting (queueing line) o t = s
  at_waiting waiting o t = t
  at_waiting (leaving e) o t = s
  at_waiting (returned r) o t = s

  pub await-IsSound :
      (n : ℕ) (wanted : Bool) (which : Case) → Moves (IsSound k) c (await k n wanted which c)
  unfolding await
  await-IsSound n wanted which = at_waiting (c.calls n) _ (awaited-IsSound n wanted which)

  left-IsSound :
      (n : ℕ) (e : CallError)
      → c.calls n ≡ leaving e
      → IsSound k
          (set_phase n (returned (err e)) (record c { pending = delete (id_of n) c.pending }))
  left-IsSound n e q =
      set_phase-IsSound (delete-IsSound s (id_of n)) n (returned (err e))
        (subst (IsAnswered k n) q (s.answered n))

  at_leaving :
      (n : ℕ) (p : Phase)
      → c.calls n ≡ p
      → Moves (IsSound k) c (elim p [
        | leaving e ↦
            some
              (set_phase n (returned (err e)) (record c { pending = delete (id_of n) c.pending }))
        | _ ↦ none
      ])
  at_leaving n registered q = s
  at_leaving n unborn q = s
  at_leaving n (queueing line) q = s
  at_leaving n waiting q = s
  at_leaving n (leaving e) q = left-IsSound n e q
  at_leaving n (returned r) q = s

  pub leave-IsSound : (n : ℕ) → Moves (IsSound k) c (leave n c)
  unfolding leave
  leave-IsSound n = at_leaving n (c.calls n) refl
