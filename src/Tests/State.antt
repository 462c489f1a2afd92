-- ===== src/Tests/State.antt =====
-- The state library at concrete values.
use counterpoint.Prelude.{
  sym, ap, Result, ℕ, suc, ◌+◌, ◌*◌, ◌≤◌, ◌≡◌, ◌≢◌, ◌↔◌, refl, ◌⊎◌, Bool, true, false, List, [],
  ◌∷◌, ◌++◌, Option, none, some, length, arith, All, ok, err, if◌then◌else◌, ◌/◌, ◌==◌,
}
use counterpoint.Prelude.Int.{pos}
use counterpoint.Prelude.Text.{Bytes, codes}
use counterpoint.State.Record.{HistoryRecord, Workflow}
use counterpoint.State.History.{
  invalid_history, retain_history, newest_bytes, invalid, new_history_record, records_defect,
  record_defect, history_bytes,
}
use counterpoint.State.ObjectId.{is_object_id}
use counterpoint.State.History.Retain.{Fits, retain_history-Fits, retain_history_maximal}
use counterpoint.State.History.Ledger.{
  IsLedger, IsRecord, invalid_history_iff, new_history_record-IsRecord,
}
use counterpoint.State.Request.{Request, fields}
use counterpoint.State.Request.Injective.{Addressable, stream-fields_injective}
use counterpoint.State.Lock.{
  Poll, taken, would_block, Opening, acquire_lock, poll_loop, acquired, polling, lock_wait,
  lock_poll_interval,
}
use counterpoint.State.Lock.Acquire.{Granted, Kept, acquire_lock_ends, acquire_lock-Granted}
use counterpoint.State.Store.{
  Workflows, Codec, file, load, save, malformed, not_loaded, encode_state, parse, read_bounded,
  LoadError, max_state_file_size,
}
use counterpoint.State.Store.Write.{Files, write_atomic}
use counterpoint.State.Store.Write.Atomic.{Documented, IsAtomic, write_atomic-IsAtomic}
use counterpoint.State.Store.Storable.{envelope_of, RoundTrips}
use counterpoint.State.Store.Calls.{load_call, save_call, after_calls, after_calls-load_failed}
use counterpoint.State.Store.Saved.{opened, IsSaved, save-loads, load-save}

abbrev pub commit_id : Bytes
commit_id = codes "aaaaaaaaaaaaaaaaaaaaaaaaaaaaaaaaaaaaaaaa"

abbrev pub base_id : Bytes
base_id = codes "0123456789abcdef0123456789abcdef01234567"

abbrev pub first_round : HistoryRecord
first_round = record {
  round = pos 1;
  commit = base_id;
  base = base_id;
  review = codes "fix it";
  omitted = [];
  usage = none;
}

abbrev pub two_rounds : Workflow
two_rounds = record {
  thread_id = codes "thread";
  last_commit = commit_id;
  last_base = base_id;
  last_request_hash = codes "hash";
  round = pos 2;
  last_review = codes "approved";
  last_warnings = [];
  last_usage = none;
  history = first_round ∷ [];
}

abbrev second_round : HistoryRecord
second_round = record {
  round = pos 2;
  commit = commit_id;
  base = base_id;
  review = codes "approved";
  omitted = [];
  usage = none;
}

abbrev three_rounds : Workflow
three_rounds = record two_rounds {
  round = pos 3;
  history = retain_history (first_round ∷ []) second_round (codes "approved");
}

pub two_rounds_valid : invalid_history two_rounds ≡ none
unfolding invalid_history records_defect record_defect is_object_id invalid history_bytes
    newest_bytes
two_rounds_valid = refl

invalid_history_iff_example : (invalid_history two_rounds ≡ none) ↔ IsLedger 2 two_rounds
invalid_history_iff_example = invalid_history_iff 2 two_rounds (omega arith) (omega arith) refl

two_rounds-IsLedger : IsLedger 2 two_rounds
two_rounds-IsLedger =
    (invalid_history_iff 2 two_rounds (omega arith) (omega arith) refl).0 two_rounds_valid

pub no_usage : invalid none ≡ none
unfolding invalid
no_usage = refl

pub ids : (is_object_id commit_id ≡ true) × (is_object_id base_id ≡ true)
unfolding is_object_id
ids = (refl, refl)

second_round-IsRecord : IsRecord second_round
second_round-IsRecord =
    unfold new_history_record in
    new_history_record-IsRecord (pos 2) commit_id base_id (codes "approved") none ids.0 ids.1
      (λ e. cc) no_usage

retain_history-Fits_example :
    let kept = retain_history (first_round ∷ second_round ∷ []) second_round (codes "ok") in
    Fits (newest_bytes (codes "ok")) kept
    × ((evicted : List HistoryRecord) × ((first_round ∷ second_round ∷ []) ++ (second_round ∷ [])
          ≡ evicted ++ kept))
retain_history-Fits_example =
    retain_history-Fits (first_round ∷ second_round ∷ []) second_round (codes "ok")

two_fit : Fits (newest_bytes (codes "ok")) (second_round ∷ second_round ∷ [])
unfolding newest_bytes history_bytes
two_fit = record { few = omega arith; small = omega arith }

retain_history_maximal_example :
    2 ≤ length (retain_history (first_round ∷ second_round ∷ []) second_round (codes "ok"))
retain_history_maximal_example =
    retain_history_maximal (first_round ∷ second_round ∷ []) second_round (codes "ok")
      (first_round ∷ []) (second_round ∷ second_round ∷ []) refl two_fit

abbrev asked : Request
asked = record {
  identity = codes "/repo/.git";
  branch_ref = codes "refs/heads/topic";
  commit = commit_id;
  base = base_id;
  branch_notes = codes "notes";
  build = true;
}

asked-Addressable : Addressable (fields asked)
unfolding fields
asked-Addressable =
    (omega arith, (omega arith, (omega arith, (omega arith, (omega arith, (omega arith, tt))))))

stream-fields_injective_example : asked ≡ asked
stream-fields_injective_example =
    stream-fields_injective asked asked asked-Addressable asked-Addressable refl

-- The lock is refused once and granted at the second attempt.
abbrev second_try : ℕ → Poll
second_try i = record {
  ended = false;
  flock = if 0 == i then would_block else taken;
  now = i * lock_poll_interval;
  ends_waiting = false;
}

abbrev prepared : Opening
prepared = record { ended = false; make_dir = true; open_file = true; started = 0 }

acquire_lock_ends_example :
    let (outcome, handle) =
      acquire_lock prepared second_try lock_wait (suc (lock_wait / lock_poll_interval + 1)) in
    (outcome ≢ polling) × Kept outcome handle
acquire_lock_ends_example =
    acquire_lock_ends prepared second_try lock_wait (λ i. omega arith) (omega arith)

second_try_taken : (acquire_lock prepared second_try lock_wait 22).0 ≡ acquired
unfolding acquire_lock poll_loop
second_try_taken = refl

acquire_lock-Granted_example : (j : ℕ) × Granted (second_try j)
acquire_lock-Granted_example =
    acquire_lock-Granted prepared second_try lock_wait 22 second_try_taken

abbrev pub one_workflow : Workflows
one_workflow = (codes "key", two_rounds) ∷ []

-- A disk with the state file and a temporary file, on which every operation succeeds.
abbrev disk : Files
disk = record {
  Disk = Option Bytes × Option Bytes;
  target = λ d. d.0;
  temp = λ d. d.1;
  make_dir = λ d. (d, true);
  create_temp = λ d. ((d.0, some []), true);
  chmod = λ d. (d, true);
  write = λ content d. ((d.0, some content), true);
  sync = λ d. (d, true);
  close = λ d. (d, true);
  rename = λ d. ((d.1, none), true);
  remove = λ d. ((d.0, none), true);
  sync_dir = λ d. (d, true);
}

disk-Documented : Documented disk
disk-Documented = record {
  target-make_dir = λ d. refl;
  target-create_temp = λ d. refl;
  target-chmod = λ d. refl;
  target-write = λ content d. refl;
  target-sync = λ d. refl;
  target-close = λ d. refl;
  target-remove = λ d. refl;
  target-sync_dir = λ d. refl;
  temp-create_temp = λ d e. refl;
  temp-create_failed = λ d e. absurd (cc);
  temp-chmod = λ d. refl;
  temp-write = λ content d h e. refl;
  temp-sync = λ d. refl;
  temp-close = λ d. refl;
  temp-remove = λ d e. refl;
  target-rename = λ d. refl;
}

abbrev old_disk : Option Bytes × Option Bytes
old_disk = (some (codes "old"), none)

write_atomic-IsAtomic_example :
    IsAtomic disk disk-Documented
      (some (codes "old"))
      (codes "new")
      (write_atomic disk (codes "new") old_disk)
write_atomic-IsAtomic_example =
    write_atomic-IsAtomic disk disk-Documented (some (codes "old")) (codes "new") old_disk refl

-- A codec that writes the empty state as "{}" and no other, and reads texts that open a brace.
abbrev opens_brace : Bytes → Bool
opens_brace [] = false
opens_brace (b ∷ _) = b == b'{'

abbrev codec : Codec
codec = record {
  decode = λ text. if opens_brace text then some (envelope_of []) else none;
  encode = λ env. elim env.workflows [ some [] ↦ some (codes "{}") | _ ↦ none ];
}

codec-RoundTrips : RoundTrips codec
codec-RoundTrips [] text h e = (
  [],
  ap (λ (o : Option Bytes). elim o [ none ↦ none | some t ↦ codec.decode (t ++ codes "\n") ])
      (sym e),
  λ key. refl,
)
codec-RoundTrips (_ ∷ m) text h e = absurd (cc)

broken_load : parse codec (read_bounded (file (codes "broken")) max_state_file_size) ≡ err malformed
unfolding parse read_bounded
broken_load = refl

after_calls-load_failed_example :
    let (mark, d) =
      after_calls disk codec
        (load_call (file (codes "broken")) ∷ save_call (some one_workflow) ∷ [])
        (true, old_disk) in
    (d ≡ old_disk) × (save disk codec mark (some []) d ≡ (err not_loaded, d, []))
after_calls-load_failed_example =
    after_calls-load_failed disk codec (file (codes "broken")) malformed
      (save_call (some one_workflow) ∷ []) true old_disk (some []) broken_load (tt, tt)

save-loads_example :
    let (_, final, seen) = save disk codec true (some []) old_disk in
    let load_at : Option Bytes × Option Bytes → Result LoadError Workflows × Bool =
      λ x. load codec (opened x.0) false in
    All
      (λ (x : Option Bytes × Option Bytes).
        (load_at x ≡ load_at old_disk) ⊎ IsSaved codec codec-RoundTrips [] tt (load_at x))
      seen
    × ((load_at final ≡ load_at old_disk) ⊎ IsSaved codec codec-RoundTrips [] tt (load_at final))
save-loads_example = save-loads codec codec-RoundTrips [] tt disk disk-Documented old_disk

saved_empty : (save disk codec true (some []) old_disk).0 ≡ ok tt
unfolding save encode_state write_atomic
saved_empty = refl

load-save_example :
    IsSaved codec codec-RoundTrips [] tt
      (load codec (opened (save disk codec true (some []) old_disk).1.0) true)
load-save_example =
    load-save codec codec-RoundTrips [] tt disk disk-Documented old_disk saved_empty true
