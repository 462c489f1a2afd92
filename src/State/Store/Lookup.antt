-- ===== src/State/Store/Lookup.antt =====
-- Get, Put and Replay of internal/state/state.go.
use counterpoint.Prelude.{◌≡◌, ◌≢◌, refl, ap, ◌↔◌, true, List, [], ◌∷◌, some, arith, if◌then◌else◌}
use counterpoint.Prelude.Int.{eqb_ℤ_iff}
use counterpoint.Prelude.Text.{Bytes, eq_text, eq_text_iff}
use counterpoint.State.Record.{Workflow, equal}
use counterpoint.State.Store.{Workflows, get, put, replay, same_replay_fields}

-- A lookup after Put finds the new record under its key, and every other record as it was.
pub get-put :
    (m : Workflows) (key j : Bytes) (w : Workflow)
    → get (put m key w) j ≡ (if eq_text key j then some w else get m j)
unfolding get put
get-put [] key j w = refl
get-put ((k, v) ∷ m) key j w =
    ground (arith, eq_text_iff k key, eq_text_iff k j, eq_text_iff key j, get-put m key j w)

-- Replay answers with a record exactly when it is the stored one, its last request has the hash
-- that is asked for, and the hash is not empty.
pub replay_iff :
    (m : Workflows) (key hash : Bytes) (w : Workflow)
    → (replay m key hash ≡ some w)
      ↔ ((get m key ≡ some w) × (w.last_request_hash ≡ hash) × (hash ≢ []))
unfolding replay
replay_iff m key hash w = (
  λ h. ground (arith, eq_text_iff w.last_request_hash hash),
  λ h. ground (arith, eq_text_iff w.last_request_hash hash),
)

pub equal_iff : (xs ys : List Bytes) → (equal xs ys ≡ true) ↔ (xs ≡ ys)
unfolding equal
equal_iff [] [] = (λ _. refl, λ _. refl)
equal_iff [] (y ∷ ys) = (λ h. absurd (cc), λ h. absurd (cc))
equal_iff (x ∷ xs) [] = (λ h. absurd (cc), λ h. absurd (cc))
equal_iff (x ∷ xs) (y ∷ ys) = (
  λ h. ground (arith, eq_text_iff x y, equal_iff xs ys),
  λ h. ground (arith, eq_text_iff x y, equal_iff xs ys),
)

-- SameReplayFields compares every field but the usage and the history.
pub same_replay_fields_iff :
    (w o : Workflow)
    → (same_replay_fields w o ≡ true)
      ↔ (w ≡ record o { last_usage = w.last_usage; history = w.history })
unfolding same_replay_fields
same_replay_fields_iff w o = (
  λ h. ground (
    arith,
    eq_text_iff w.thread_id o.thread_id,
    eq_text_iff w.last_commit o.last_commit,
    eq_text_iff w.last_base o.last_base,
    eq_text_iff w.last_request_hash o.last_request_hash,
    eqb_ℤ_iff w.round o.round,
    eq_text_iff w.last_review o.last_review,
    equal_iff w.last_warnings o.last_warnings,
  ),
  λ h. ground (
    arith,
    eq_text_iff w.thread_id o.thread_id,
    eq_text_iff w.last_commit o.last_commit,
    eq_text_iff w.last_base o.last_base,
    eq_text_iff w.last_request_hash o.last_request_hash,
    eqb_ℤ_iff w.round o.round,
    eq_text_iff w.last_review o.last_review,
    equal_iff w.last_warnings o.last_warnings,
    ap (λ (x : Workflow). x.thread_id) h,
    ap (λ (x : Workflow). x.last_commit) h,
    ap (λ (x : Workflow). x.last_base) h,
    ap (λ (x : Workflow). x.last_request_hash) h,
    ap (λ (x : Workflow). x.round) h,
    ap (λ (x : Workflow). x.last_review) h,
    ap (λ (x : Workflow). x.last_warnings) h,
  ),
)
