-- ===== src/AppServer/Conn/Dispatch.antt =====
-- internal/appserver/conn.go: what the reader does with one line: `dispatch` and
-- `handleServerRequest`.
use counterpoint.Prelude.{
  ℕ, Bool, not, ◌&&◌, ◌||◌, List, [], ◌∷◌, ◌++◌, Option, none, some, is_empty, if◌then◌else◌,
  Result, ok, err,
}
use counterpoint.Prelude.Int.{ℤ, negsuc}
use counterpoint.Prelude.Text.{Bytes, codes, eq_text}
use counterpoint.Prelude.Trim.{trim_space}
use counterpoint.AppServer.Warnings.{record_warning, identifiers}
use counterpoint.AppServer.Conn.{
  Envelope, Answer, declined, no_permissions, no_answers, denied, Outgoing, reply, refusal, Codec,
  Channel, unmade, empty, closed_channel, holding, Conn, Fault, reader_blocked, send_on_closed,
  update, lookup, delete, send_from_reader,
}

abbrev pub request_command_approval : Bytes
request_command_approval = codes "item/commandExecution/requestApproval"

abbrev pub request_file_change_approval : Bytes
request_file_change_approval = codes "item/fileChange/requestApproval"

abbrev pub request_permissions : Bytes
request_permissions = codes "item/permissions/requestApproval"

abbrev pub request_user_input : Bytes
request_user_input = codes "item/tool/requestUserInput"

abbrev pub request_legacy_exec_approval : Bytes
request_legacy_exec_approval = codes "execCommandApproval"

abbrev pub request_legacy_patch_approval : Bytes
request_legacy_patch_approval = codes "applyPatchApproval"

abbrev pub legacy_rejection : Bytes
legacy_rejection =
    codes "Counterpoint reviews in read-only mode and never grants execution or write approval"

abbrev pub code_method_not_found : ℤ
code_method_not_found = negsuc 32600

-- The switch over the method: the result to answer with, or `none` for an unsupported request.
unfoldable pub answer_for : Bytes → Option Answer
answer_for method =
    if eq_text method request_command_approval || eq_text method request_file_change_approval
    then some declined
    else if eq_text method request_legacy_exec_approval
        || eq_text method request_legacy_patch_approval
    then some (denied legacy_rejection)
    else if eq_text method request_permissions
    then some no_permissions
    else if eq_text method request_user_input
    then some no_answers
    else none

unfoldable pub add_warning : Bytes → Conn → Conn
add_warning w c = record c { warnings = record_warning c.warnings w }

unfoldable pub warning_for : Codec → Envelope → Bytes
warning_for k env =
    let (item, turn) = k.item_and_turn env.params in
    let what = env.method ++ identifiers item turn in
    elim (answer_for env.method) [
      | none ↦ codes "rejected unsupported app-server request " ++ what
      | some _ ↦ codes "declined app-server request " ++ what
    ]

unfoldable pub reply_to : Envelope → Outgoing
reply_to env = elim (answer_for env.method) [
  | some result ↦ reply env.id result
  | none ↦ refusal env.id (record {
    code = code_method_not_found;
    message = codes "unsupported request: " ++ env.method;
  })
]

unfoldable pub handle_server_request : Codec → Envelope → Conn → Conn
unfolding add_warning
handle_server_request k env c =
    send_from_reader k (reply_to env) (add_warning (warning_for k env) c)

hear : List ℕ → Envelope → List (ℕ × Envelope) → List (ℕ × Envelope)
hear [] env heard = heard
hear (h ∷ hs) env heard = hear hs env ((h, env) ∷ heard)

-- Every handler, in no particular order.
unfoldable pub notify_handlers : Envelope → Conn → Conn
unfolding hear
notify_handlers env c = record c { heard = hear c.handlers env c.heard }

-- ch <- *env, on a channel with room for one message
put : Channel → Envelope → Result Fault Channel
put unmade env = err reader_blocked
put empty env = ok (holding env)
put (holding _) env = err reader_blocked
put closed_channel env = err send_on_closed

put_reply : ℕ → Result Fault Channel → Conn → Result Fault Conn
put_reply ch (err f) c = err f
put_reply ch (ok filled) c = ok (record c { channels = update c.channels ch filled })

respond : Option ℕ → Envelope → Conn → Result Fault Conn
unfolding put put_reply
-- a response for an unknown request is ignored
respond none env c = ok c
respond (some ch) env c = put_reply ch (put (c.channels ch) env) c

-- A response: the call's entry is taken out of `pending`, and its channel gets the message.
unfoldable pub handle_response : Option ℤ → Envelope → Conn → Result Fault Conn
unfolding respond
-- an id that is no integer is ignored
handle_response none env c = ok c
handle_response (some id) env c =
    respond (lookup id c.pending) env (record c { pending = delete id c.pending })

unfoldable pub dispatch : Codec → Envelope → Conn → Result Fault Conn
dispatch k env c =
    if not (is_empty env.method) && not (is_empty env.id)
    then ok (handle_server_request k env c)
    else if not (is_empty env.method)
    then ok (notify_handlers env c)
    else if not (is_empty env.id)
    then handle_response (k.int_of env.id) env c
    else ok c

-- len(bytes.TrimSpace(line)) == 0
pub is_blank : Bytes → Bool
is_blank line = is_empty (trim_space line)

-- One turn of the reader's loop.
unfoldable pub read_line : Codec → Bytes → Conn → Result Fault Conn
unfolding is_blank
read_line k line c =
    if is_blank line
    then ok c
    else elim (k.decode line) [ none ↦ ok c | some env ↦ dispatch k env c ]
