-- ===== src/AppServer/Conn/Declined.antt =====
-- internal/appserver/conn.go: what the child gets for a request of its own.
use counterpoint.Prelude.{
  Bool-cases, inl, inr, ltb, is_empty, suc, ◌+◌, ◌≤◌, ◌≡◌, ◌⊎◌, refl, false, [], ◌∷◌, Option, none,
  some, arith, ok, length, ◌++◌, Option-cases,
}
use counterpoint.Prelude.Text.{Bytes, codes, eq_text, eq_text_iff}
use counterpoint.Prelude.Int.{negsuc}
use counterpoint.AppServer.Warnings.{record_warning, identifiers}
use counterpoint.AppServer.Conn.{
  encode_failed, message_too_large, write_backlog, Envelope, send_from_reader, send_encoded,
  encode_line, encoded, Conn, Codec, Answer, declined, no_permissions, no_answers, denied, Outgoing,
  reply, refusal, ConnError, terminate, outbox_size, max_message_size,
}
use counterpoint.AppServer.Conn.Dispatch.{
  dispatch, handle_server_request, add_warning, reply_to, warning_for, answer_for,
  request_command_approval, request_file_change_approval, request_legacy_exec_approval,
  request_legacy_patch_approval, request_permissions, request_user_input,
}

-- What a request that is answered gets, by its method: a decline, a denial in the words of the older
-- protocol, no permissions, or no answers.
abbrev pub IsAnswer : Bytes → Answer → Type 0
IsAnswer method declined =
    (method ≡ codes "item/commandExecution/requestApproval")
    ⊎ (method ≡ codes "item/fileChange/requestApproval")
IsAnswer method (denied reason) =
    ((method ≡ codes "execCommandApproval") ⊎ (method ≡ codes "applyPatchApproval"))
    × (reason
        ≡ codes
            "Counterpoint reviews in read-only mode and never grants execution or write approval")
IsAnswer method no_permissions = method ≡ codes "item/permissions/requestApproval"
IsAnswer method no_answers = method ≡ codes "item/tool/requestUserInput"

abbrev named : Codec → Envelope → Bytes
named k env = let (item, turn) = k.item_and_turn env.params in env.method ++ identifiers item turn

-- The message to the child and the warning: an answer, or an error for every other method.
abbrev pub IsReply : Codec → Envelope → Outgoing → Bytes → Type 0
IsReply k env out warning =
    ((a : Answer) × IsAnswer env.method a
      × (out ≡ reply env.id a)
      × (warning ≡ codes "declined app-server request " ++ named k env))
    ⊎ (((a : Answer) → IsAnswer env.method a → ⊥)
        × (out
            ≡ refusal env.id (record {
              code = negsuc 32600;
              message = codes "unsupported request: " ++ env.method;
            }))
        × (warning ≡ codes "rejected unsupported app-server request " ++ named k env))

answer_to : (method : Bytes) (a : Answer) → answer_for method ≡ some a → IsAnswer method a
unfolding answer_for
answer_to method declined h = ground (
  arith,
  eq_text_iff method request_command_approval,
  eq_text_iff method request_file_change_approval,
)
answer_to method (denied reason) h = ground (
  arith,
  eq_text_iff method request_legacy_exec_approval,
  eq_text_iff method request_legacy_patch_approval,
)
answer_to method no_permissions h = ground (arith, eq_text_iff method request_permissions)
answer_to method no_answers h = ground (arith, eq_text_iff method request_user_input)

answer_none : (method : Bytes) (a : Answer) → answer_for method ≡ none → IsAnswer method a → ⊥
unfolding answer_for eq_text
answer_none method declined h (inl e) = let x = rw e at h in absurd (cc)
answer_none method declined h (inr e) = let x = rw e at h in absurd (cc)
answer_none method (denied reason) h (inl e, _) = let x = rw e at h in absurd (cc)
answer_none method (denied reason) h (inr e, _) = let x = rw e at h in absurd (cc)
answer_none method no_permissions h e = let x = rw e at h in absurd (cc)
answer_none method no_answers h e = let x = rw e at h in absurd (cc)

reply_lem : (k : Codec) (env : Envelope) → IsReply k env (reply_to env) (warning_for k env)
unfolding reply_to warning_for
reply_lem k env = elim (Option-cases (answer_for env.method)) [
  | inr (a, q) ↦ rw (q, reply_to, warning_for) (inl (a, answer_to env.method a q, refl, refl))
  | inl q ↦ rw (q, reply_to, warning_for) (inr ((λ a. answer_none env.method a q), refl, refl))
]

-- The line with the message is the one thing queued.
abbrev IsQueued : Codec → Outgoing → Bytes → Conn → Conn → Type 0
IsQueued k out warning c c' =
    (data_ : Bytes) × (k.marshal out ≡ some data_)
    × (suc (length data_) ≤ max_message_size)
    × (c' ≡ record c {
      outbox = c.outbox ++ ((data_ ++ (b'\n' ∷ [])) ∷ []);
      warnings = record_warning c.warnings warning;
    })

-- The connection is ended, and nothing is queued.
abbrev IsTerminated : Bytes → Conn → Conn → Type 0
IsTerminated warning c c' =
    (e : ConnError) × (c' ≡ terminate e (record c { warnings = record_warning c.warnings warning }))

abbrev pub IsRefused : Codec → Envelope → Conn → Conn → Type 0
IsRefused k env c c' =
    (out : Outgoing) × (warning : Bytes) × IsReply k env out warning
    × (IsQueued k out warning c c' ⊎ IsTerminated warning c c')

reply_IsRefused :
    (k : Codec) (env : Envelope) (c : Conn) (o : Option Bytes)
    → k.marshal (reply_to env) ≡ o
    → let c' = send_encoded (encoded o) (add_warning (warning_for k env) c) in
      IsQueued k (reply_to env) (warning_for k env) c c' ⊎ IsTerminated (warning_for k env) c c'
unfolding send_encoded encoded add_warning
reply_IsRefused k env c none h = inr (encode_failed, refl)
reply_IsRefused k env c (some data_) h =
    elim (Bool-cases (ltb max_message_size (length data_ + 1))) [
      | inl long ↦ rw long (inr (message_too_large, refl))
      | inr short ↦ elim (Bool-cases (ltb (length c.outbox) outbox_size)) [
        | inl room ↦ rw (short, room) (inl (data_, h, ground arith, refl))
        | inr full ↦ rw (short, full) (inr (write_backlog, refl))
      ]
    ]

-- A request of the child's own never gets what it asks for and never waits for an answer: an
-- approval is declined, in the older protocol denied, permissions and user input come back empty, and
-- any other method gets the error "method not found". The warning that names the request and says
-- which of the two it was goes to the bounded record of warnings, and either the one line queued is
-- the encoding of that message, within the limit of a message, or the connection is terminated with
-- nothing queued.
pub dispatch-IsRefused :
    (k : Codec) (env : Envelope) (c : Conn)
    → is_empty env.method ≡ false
    → is_empty env.id ≡ false
    → (c' : Conn) × (dispatch k env c ≡ ok c') × IsRefused k env c c'
unfolding dispatch handle_server_request send_from_reader encode_line
dispatch-IsRefused k env c m i = (
  handle_server_request k env c,
  rw (m, i) refl,
  (
    reply_to env,
    warning_for k env,
    reply_lem k env,
    reply_IsRefused k env c (k.marshal (reply_to env)) refl,
  ),
)
