-- ===== src/Scratch/Sweep/Safe.antt =====
-- internal/scratch/sweep.go: what the sweep of one workflow directory can change.
use counterpoint.Prelude.{
  sym, ap, ◌&&◌, All, ◌∙◌, ℕ, zero, suc, ◌≡◌, refl, Bool, true, false, not, List, [], ◌∷◌, ◌++◌,
  Option, none, some, arith, if◌then◌else◌, Bool-cases, inl, inr, ◌⊎◌,
}
use counterpoint.Prelude.Text.{Bytes, eq_text, eq_text_iff, has_prefix-append}
use counterpoint.State.Lock.{Flock, taken, would_block, failed}
use counterpoint.Scratch.Tree.{RemoveError, Node, Nodes, no_nodes, named, remove_tree, kept}
use counterpoint.Scratch.Sweep.{
  entered, owned, judge, try_lock, untouched, has_trash, is_regular_lock, Opening, not_a_directory,
  open_failed, opened, Clearing, Visit, Swept, find, without, is_trash, stale, move_item,
  move_items, live_items, clear_trash, next_trash, sweep_locked, sweep_entry, trash_prefix,
  same_lock,
}

find-kept :
    (name n : Bytes) (o : Option Node) (rest : Nodes)
    → eq_text n name ≡ false
    → find name (kept o n rest) ≡ find name rest
unfolding kept find
find-kept name n none rest h = refl
find-kept name n (some m) rest h = rw h refl

find-next_trash :
    (name n : Bytes) (l : Option Node) (alive : ℕ) (o : Option RemoveError) (rest : Nodes)
    (go : ℕ → Clearing)
    → eq_text n name ≡ false
    → ((m : ℕ) → find name (go m).left ≡ find name rest)
    → find name (next_trash n (record { left = l; alive = alive; error = o }) rest go).left
      ≡ find name rest
unfolding next_trash
find-next_trash name n l alive none rest go h f = find-kept name n l (go alive).left h ∙ f alive
find-next_trash name n l zero (some e) rest go h f = find-kept name n l rest h
find-next_trash name n l (suc m) (some e) rest go h f = find-kept name n l (go m).left h ∙ f m

other_name : (n name : Bytes) → is_trash n ≡ true → is_trash name ≡ false → eq_text n name ≡ false
other_name n name p q = elim (Bool-cases (eq_text n name)) [
  | inl e ↦ let same = (eq_text_iff n name).0 e in absurd (cc)
  | inr e ↦ e
]

find-clear_trash :
    (alive base : ℕ) (name : Bytes) (d : Nodes)
    → is_trash name ≡ false
    → find name (clear_trash alive base d).left ≡ find name d
unfolding clear_trash find
find-clear_trash alive base name no_nodes h = refl
find-clear_trash alive base name (named n node rest) h =
    let r = remove_tree alive base node in
    let rec : (m : ℕ) → find name (clear_trash m base rest).left ≡ find name rest =
      λ m. find-clear_trash m base name rest h in
    elim (Bool-cases (is_trash n)) [
      | inl t ↦
          let other = other_name n name t h in
          rw (t, other)
            (find-next_trash name n r.left r.alive r.error rest (λ m. clear_trash m base rest) other
              rec)
      | inr t ↦ rw (t, rec alive) refl
    ]

find-without :
    (name n : Bytes) (d : Nodes) → eq_text n name ≡ false → find name (without n d) ≡ find name d
unfolding find without
find-without name n no_nodes h = refl
find-without name n (named m node rest) h =
    ground (arith, h, find-without name n rest h, eq_text_iff m n)

trash_other :
    (v : Visit) (item name : Bytes)
    → is_trash name ≡ false
    → eq_text (trash_prefix ++ v.suffix item) name ≡ false
trash_other v item name h =
    other_name (trash_prefix ++ v.suffix item) name
      (unfold is_trash in has_prefix-append trash_prefix (v.suffix item)) h

find-move_item :
    (v : Visit) (item name : Bytes) (d : Nodes) (did : Bool)
    → is_trash name ≡ false
    → eq_text item name ≡ false
    → find name (move_item v item (d, did)).0 ≡ find name d
unfolding move_item find
find-move_item v item name d did h k =
    let trash = trash_prefix ++ v.suffix item in
    let other = trash_other v item name h in
    let a = find-without name item d k in
    let b = find-without name trash (without item d) other in ground (arith, other, a, b)

-- The name is none of the items that the sweep moves.
abbrev pub IsForeign : List Bytes → Bytes → Type 0
IsForeign items name = All (λ (item : Bytes). eq_text item name ≡ false) items

find-move_items :
    (v : Visit) (items : List Bytes) (name : Bytes) (d : Nodes) (did : Bool)
    → is_trash name ≡ false
    → IsForeign items name
    → find name (move_items v items (d, did)).0 ≡ find name d
unfolding move_items
find-move_items v [] name d did h ks = refl
find-move_items v (item ∷ items) name d did h (k, ks) =
    let (e, done) = move_item v item (d, did) in
    find-move_items v items name e done h ks ∙ find-move_item v item name d did h k

-- Who may lose what: the entries that a swept directory keeps as they were.
abbrev pub IsKept : ℕ → Visit → Bytes → Type 0
IsKept now v name =
    (is_trash name ≡ false) × ((stale now v.under_lock ≡ false) ⊎ IsForeign live_items name)

abbrev moved : ℕ → Visit → Nodes × Bool
moved now v =
    if stale now v.under_lock
    then move_items v live_items (v.under_lock, false)
    else (v.under_lock, false)

find-moved :
    (now : ℕ) (v : Visit) (name : Bytes)
    → IsKept now v name
    → find name (moved now v).0 ≡ find name v.under_lock
find-moved now v name (h, inl young) = rw young refl
find-moved now v name (h, inr other) = elim (Bool-cases (stale now v.under_lock)) [
  | inl q ↦ rw q (find-move_items v live_items name v.under_lock false h other)
  | inr q ↦ rw q refl
]

find-sweep_locked :
    (now base : ℕ) (v : Visit) (d : Nodes) (name : Bytes)
    → (sweep_locked now base v).after ≡ some d
    → IsKept now v name
    → find name d ≡ find name v.under_lock
unfolding sweep_locked
find-sweep_locked now base v d name h k =
    let m = find-moved now v name k in
    ground (arith, h, m, find-clear_trash v.alive base name (moved now v).0 k.0)

did-sweep_locked :
    (now base : ℕ) (v : Visit)
    → (sweep_locked now base v).did ≡ true
    → stale now v.under_lock ≡ true
unfolding sweep_locked
did-sweep_locked now base v h = ground arith

-- What the sweep of an entry says when it has touched it.
record Touched (now : ℕ) (v : Visit) (r : Swept) : Type 0 where
  base : ℕ
  locked : v.flock ≡ taken
  same : same_lock v.lock_seen v.lock_opened ≡ true
  result : r ≡ sweep_locked now base v

abbrev Judged : ℕ → Visit → Swept → Type 0
Judged now v r = ((r.after ≡ none) × (r.did ≡ false)) ⊎ Touched now v r

Judged-try :
    (now base : ℕ) (v : Visit) (f : Flock)
    → v.flock ≡ f
    → same_lock v.lock_seen v.lock_opened ≡ true
    → Judged now v (try_lock now base v f)
unfolding try_lock untouched
Judged-try now base v taken q h = inr (record { base = base; locked = q; same = h; result = refl })
Judged-try now base v would_block q h = inl (refl, refl)
Judged-try now base v failed q h = inl (refl, refl)

Judged-judge : (now base : ℕ) (v : Visit) (o : Option Nodes) → Judged now v (judge now base v o)
unfolding judge untouched
Judged-judge now base v none = inl (refl, refl)
Judged-judge now base v (some d) = elim (Bool-cases (not (has_trash d) && not (stale now d))) [
  | inl q ↦ rw q (inl (refl, refl))
  | inr q ↦ elim (Bool-cases (same_lock v.lock_seen v.lock_opened)) [
    | inl h ↦ rw (q, h) (Judged-try now base v v.flock refl h)
    | inr h ↦ rw (q, h) (inl (refl, refl))
  ]
]

Judged-owned : (now : ℕ) (v : Visit) (o : Option ℕ) → Judged now v (owned now v o)
unfolding owned untouched
Judged-owned now v none = inl (refl, refl)
Judged-owned now v (some base) = elim (Bool-cases (is_regular_lock v.lock_seen)) [
  | inl q ↦ rw q (Judged-judge now base v v.before)
  | inr q ↦ rw q (inl (refl, refl))
]

Judged-entry : (now : ℕ) (v : Visit) (o : Opening) → Judged now v (entered now v o)
unfolding entered untouched
Judged-entry now v not_a_directory = inl (refl, refl)
Judged-entry now v open_failed = inl (refl, refl)
Judged-entry now v opened = Judged-owned now v v.stat

-- The sweep touches a workflow directory only with the lock, on the very file that it took for
-- Counterpoint's before. It then moves the live items only when the workflow is still unused for
-- longer than the maximal age, as the directory says under the lock, and never changes another entry
-- than those items and the trash.
pub sweep_entry-IsKept :
    (now : ℕ) (v : Visit) (d : Nodes)
    → (sweep_entry now v).after ≡ some d
    → (v.flock ≡ taken)
      × (same_lock v.lock_seen v.lock_opened ≡ true)
      × ((sweep_entry now v).did ≡ true → stale now v.under_lock ≡ true)
      × ((name : Bytes) → IsKept now v name → find name d ≡ find name v.under_lock)
unfolding sweep_entry
sweep_entry-IsKept now v d h = elim (Judged-entry now v v.opening) [
  | inl (a, _) ↦ absurd (cc)
  | inr t ↦ (
    t.locked,
    t.same,
    λ did. did-sweep_locked now t.base v (sym (ap (λ (r : Swept). r.did) t.result) ∙ did),
    λ name k.
        find-sweep_locked now t.base v d name (sym (ap (λ (r : Swept). r.after) t.result) ∙ h) k,
  )
]
