-- ===== src/AppServer/Policy/SameSet.antt =====
-- sameSet of internal/appserver/client.go against membership.
use counterpoint.Prelude.{
  suc, ◌≤◌, ◌≡◌, ◌↔◌, Option-cases, refl, ap, ◌∙◌, sym, inl, inr, Bool, true, false, ◌||◌, List, [],
  ◌∷◌, some, length, arith, if◌then◌else◌, Bool-cases,
}
use counterpoint.Prelude.Text.{Bytes, eq_text, eq_text_iff, eq_text_refl}
use counterpoint.AppServer.Policy.{mem, collect, all_seen, same_set}

-- No string occurs twice.
abbrev pub Distinct : List Bytes → Type 0
Distinct [] = Unit {0}
Distinct (s ∷ ss) = (mem s ss ≡ false) × Distinct ss

-- Every string of the one is in the other.
abbrev pub Within : List Bytes → List Bytes → Type 0
Within a b = (s : Bytes) → mem s a ≡ true → mem s b ≡ true

all_seen→Within : (seen b : List Bytes) → all_seen seen b ≡ true → Within b seen
unfolding all_seen mem
all_seen→Within seen [] h s m = absurd (cc)
all_seen→Within seen (t ∷ b) h s m =
    ground (arith, eq_text_iff s t, all_seen→Within seen b (ground arith) s)

Within→all_seen : (seen b : List Bytes) → Within b seen → all_seen seen b ≡ true
unfolding all_seen mem
Within→all_seen seen [] h = refl
Within→all_seen seen (t ∷ b) h =
    ground (arith, h t, eq_text_refl t, Within→all_seen seen b (λ s m. h s (ground arith)))

-- What the first loop has seen: the strings of the list, and those from before.
collect-mem :
    (seen a : List Bytes) {all : List Bytes} (s : Bytes)
    → collect seen a ≡ some all
    → mem s all ≡ (mem s a || mem s seen)
unfolding collect mem
collect-mem seen [] s h = ground arith
collect-mem seen (t ∷ a) {all} s h = ground (arith, collect-mem (t ∷ seen) a {all = all} s)

collect-Distinct :
    (seen a : List Bytes) {all : List Bytes}
    → collect seen a ≡ some all
    → Distinct a × ((s : Bytes) → mem s seen ≡ true → mem s a ≡ false)
unfolding collect mem
collect-Distinct seen [] h = (tt, λ s m. refl)
collect-Distinct seen (t ∷ a) {all} h =
    let (rest, apart) = collect-Distinct (t ∷ seen) a {all = all} (ground arith) in
    (
      (ground (arith, apart t, eq_text_refl t), rest),
      λ s m. ground (arith, apart s, eq_text_iff s t),
    )

Distinct-collect :
    (seen a : List Bytes)
    → Distinct a
    → ((s : Bytes) → mem s seen ≡ true → mem s a ≡ false)
    → (all : List Bytes) × (collect seen a ≡ some all)
unfolding collect mem
Distinct-collect seen [] d apart = (seen, refl)
Distinct-collect seen (t ∷ a) d apart =
    let (all, e) =
      Distinct-collect (t ∷ seen) a d.1 (λ s m. ground (arith, apart s, eq_text_iff s t)) in
    (all, ground (arith, apart t, eq_text_refl t))

-- The first occurrence of y taken out.
erase : Bytes → List Bytes → List Bytes
erase y [] = []
erase y (s ∷ a) = if eq_text y s then a else s ∷ erase y a

length-erase : (y : Bytes) (a : List Bytes) → mem y a ≡ true → suc (length (erase y a)) ≡ length a
unfolding erase mem
length-erase y [] h = absurd (cc)
length-erase y (s ∷ a) h = ground (arith, length-erase y a)

mem-erase_ne :
    (y z : Bytes) (a : List Bytes) → eq_text z y ≡ false → mem z a ≡ true → mem z (erase y a) ≡ true
unfolding erase mem
mem-erase_ne y z [] ne h = h
mem-erase_ne y z (s ∷ a) ne h =
    ground (arith, mem-erase_ne y z a ne, eq_text_iff y s, eq_text_iff z s, eq_text_iff z y)

ne_of_mem : (y z : Bytes) (b : List Bytes) → mem y b ≡ false → mem z b ≡ true → eq_text z y ≡ false
ne_of_mem y z b no_y z_in = elim (Bool-cases (eq_text z y)) [
  | inl e ↦ absurd (cc (ap (λ (s : Bytes). mem s b) ((eq_text_iff z y).0 e)))
  | inr e ↦ e
]

Within-erase : (y : Bytes) (b a : List Bytes) → mem y b ≡ false → Within b a → Within b (erase y a)
Within-erase y b a no_y h z m = mem-erase_ne y z a (ne_of_mem y z b no_y m) (h z m)

-- Distinct strings that fit into a list are no more than it has.
Distinct-le : (b a : List Bytes) → Distinct b → Within b a → length b ≤ length a
Distinct-le [] a d h = omega arith
Distinct-le (y ∷ b) a d h = omega (
  arith,
  length-erase y a (h y (unfold mem in ground (arith, eq_text_refl y))),
  Distinct-le b (erase y a) d.1 (Within-erase y b a d.0 (λ z m. h z (unfold mem in ground arith))),
)

tail_mem : (s y : Bytes) (b : List Bytes) → mem s b ≡ true → mem s (y ∷ b) ≡ true
unfolding mem
tail_mem s y b h = ground arith

-- Distinct strings within a list that is no longer than they are make it up.
Distinct-cover : (b a : List Bytes) → Distinct b → Within b a → length a ≤ length b → Within a b
Distinct-cover [] [] d h l s m = m
Distinct-cover [] (x ∷ a) d h l s m = absurd (omega arith)
Distinct-cover (y ∷ b) a d h l s m =
    let y_in = h y (unfold mem in ground (arith, eq_text_refl y)) in
    let rest : mem s (erase y a) ≡ true → mem s b ≡ true =
      Distinct-cover b (erase y a) d.1
        (Within-erase y b a d.0 (λ z k. h z (unfold mem in ground arith)))
        (omega (arith, length-erase y a y_in)) s in
    elim (Bool-cases (eq_text s y)) [
      | inl e ↦ unfold mem in ground arith
      | inr ne ↦ tail_mem s y b (rest (mem-erase_ne y s a ne m))
    ]

-- The same strings.
abbrev pub SameMembers : List Bytes → List Bytes → Type 0
SameMembers a b = (s : Bytes) → mem s a ≡ mem s b

Bool-antisym : (x y : Bool) → (x ≡ true → y ≡ true) → (y ≡ true → x ≡ true) → x ≡ y
Bool-antisym true true f g = refl
Bool-antisym false false f g = refl
Bool-antisym true false f g = cc (f refl)
Bool-antisym false true f g = cc (g refl)

seen_in_list :
    (a : List Bytes) {all : List Bytes} (s : Bytes)
    → collect [] a ≡ some all
    → mem s all ≡ true
    → mem s a ≡ true
unfolding mem
seen_in_list a {all} s e m = ground (arith, collect-mem [] a {all = all} s)

list_seen : (a : List Bytes) (s : Bytes) → mem s a ≡ true → (mem s a || mem s []) ≡ true
list_seen a s m = rw m

same_set_parts :
    (a b : List Bytes)
    → same_set a b ≡ true
    → (all : List Bytes) × (collect [] a ≡ some all)
      × (length a ≡ length b)
      × (all_seen all b ≡ true)
unfolding same_set
same_set_parts a b h = elim (Option-cases (collect [] a)) [
  | inl e ↦ absurd (ground arith)
  | inr (all, e) ↦ (all, e, ground arith, ground arith)
]

same_set_sound :
    (a b : List Bytes) → Distinct b → same_set a b ≡ true → Distinct a × SameMembers a b
same_set_sound a b d h =
    let (all, e, l, seen) = same_set_parts a b h in
    let b_in_a : Within b a =
      λ s m. seen_in_list a {all = all} s e (all_seen→Within all b seen s m) in
    (
      (collect-Distinct [] a {all = all} e).0,
      λ s.
          Bool-antisym (mem s a) (mem s b) (Distinct-cover b a d b_in_a (omega arith) s) (b_in_a s),
    )

same_set_complete :
    (a b : List Bytes) → Distinct b → Distinct a → SameMembers a b → same_set a b ≡ true
unfolding same_set
same_set_complete a b d d' h =
    let (all, e) = Distinct-collect [] a d' (λ s m. absurd (unfold mem in cc)) in
    let l : length a ≡ length b =
      omega
        (arith, Distinct-le a b d' (λ s m. sym (h s) ∙ m), Distinct-le b a d (λ s m. h s ∙ m)) in
    let seen =
      Within→all_seen all b (λ s m. collect-mem [] a {all = all} s e ∙ list_seen a s (h s ∙ m)) in
    ground arith

-- For expected strings that are distinct, sameSet accepts exactly the lists of distinct strings that
-- hold the same ones.
pub same_set_iff :
    (a b : List Bytes) → Distinct b → (same_set a b ≡ true) ↔ (Distinct a × SameMembers a b)
same_set_iff a b d = (same_set_sound a b d, λ h. same_set_complete a b d h.0 h.1)
