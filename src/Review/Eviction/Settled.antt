-- ===== src/Review/Eviction/Settled.antt =====
-- How the eviction loop ends, when the heap permutes its items as container/heap documents.
use counterpoint.Prelude.{
  ℕ, ◌+◌, ◌-◌, ◌<◌, ◌≡◌, refl, sym, ap, Bool, true, false, ◌&&◌, List, [], ◌∷◌, none, some, length,
  arith, ltb, leb, ◌==◌, if◌then◌else◌, Bool-cases, inl, inr, ltb→lt, le→leb, ◌∙◌,
}
use counterpoint.Prelude.Text.{Bytes, eq_text, eq_text_iff, eq_text_refl}
use counterpoint.State.Record.{HistoryRecord, Workflow}
use counterpoint.State.Store.{Workflows, get, put}
use counterpoint.Review.Eviction.{
  Candidate, Heap, evict_oldest, shrink, records, less, total, candidates,
}
use counterpoint.Review.Eviction.Ends.{Evicted}

-- How often a candidate stands in a list: once for each item with its key and its bytes.
abbrev pub one : Candidate → Candidate → ℕ
one d c = if eq_text d.key c.key && (d.bytes == c.bytes) then 1 else 0

abbrev pub count : Candidate → List Candidate → ℕ
count d [] = 0
count d (c ∷ cs) = one d c + count d cs

-- The operations of a heap move the items, and Pop removes the first.
pub record Permutes (h : Heap) : Type 0 where
  pub init_law :
      (o : Candidate → Candidate → Bool) (cs : List Candidate) (d : Candidate)
      → count d (h.init o cs) ≡ count d cs
  pub fix_law :
      (o : Candidate → Candidate → Bool) (cs : List Candidate) (d : Candidate)
      → count d (h.fix o cs) ≡ count d cs
  pub pop_law :
      (o : Candidate → Candidate → Bool) (c : Candidate) (cs : List Candidate) (d : Candidate)
      → count d (h.pop o (c ∷ cs)) ≡ count d cs

-- No key twice, as in a Go map.
abbrev pub Unique : Workflows → Type 0
Unique [] = Unit
Unique ((k, w) ∷ m) = (get m k ≡ none) × Unique m

get-put-none :
    (m : Workflows) (k j : Bytes) (w v : Workflow)
    → get m k ≡ some v
    → get m j ≡ none
    → get (put m k w) j ≡ none
unfolding get put
get-put-none [] k j w v h n = absurd (cc)
get-put-none ((i, x) ∷ m) k j w v h n =
    ground (arith, eq_text_iff i k, eq_text_iff i j, eq_text_iff k j, get-put-none m k j w v)

put-Unique :
    (m : Workflows) (k : Bytes) (w v : Workflow) → get m k ≡ some v → Unique m → Unique (put m k w)
unfolding get put
put-Unique [] k w v h u = absurd (cc)
put-Unique ((i, x) ∷ m) k w v h u = elim (Bool-cases (eq_text i k)) [
  | inl same ↦ rw same u
  | inr other ↦
      let there : get m k ≡ some v = rw other at h in
      rw other (get-put-none m k i w v there u.0, put-Unique m k w v there u.1)
]

pub Evicted-Unique :
    (m : Workflows) (k : Bytes) (m' : Workflows) (r : HistoryRecord)
    → Evicted m k m' r
    → Unique m
    → Unique m'
Evicted-Unique m k m' r v u =
    rw v.stored (put-Unique m k (record v.from { history = v.rest }) v.from v.found u)

module _ (record_bytes : HistoryRecord → ℕ) where
  part : Bytes → List HistoryRecord → Candidate → ℕ
  part k [] d = 0
  part k (r ∷ rs) d = one d (record { key = k; bytes = total record_bytes (r ∷ rs) })

  -- What a workflow adds to the candidates.
  candidates-cons :
      (k : Bytes) (w : Workflow) (h : List HistoryRecord) (m : Workflows) (d : Candidate)
      → w.history ≡ h
      → count d (candidates record_bytes ((k, w) ∷ m))
        ≡ part k h d + count d (candidates record_bytes m)
  unfolding candidates part
  candidates-cons k w [] m d e = rw e (omega arith)
  candidates-cons k w (r ∷ rs) m d e = rw (e, e) refl

  abbrev Holds : List HistoryRecord → Candidate → Type 0
  Holds h d =
      (r : HistoryRecord) × (rest : List HistoryRecord) × (h ≡ r ∷ rest)
      × (d.bytes ≡ total record_bytes (r ∷ rest))

  part_found :
      (k : Bytes) (h : List HistoryRecord) (d : Candidate)
      → 0 < part k h d
      → (k ≡ d.key) × Holds h d
  unfolding part
  part_found k [] d p = absurd (omega arith)
  part_found k (r ∷ rs) d p = (ground (arith, eq_text_iff d.key k), (r, rs, refl, ground arith))

  part_itself :
      (k : Bytes) (h : List HistoryRecord) (d : Candidate) → d.key ≡ k → Holds h d → part k h d ≡ 1
  unfolding part
  part_itself k [] d e x = absurd (cc)
  part_itself k (r ∷ rs) d e x = ground (arith, eq_text_iff d.key k, ap (total record_bytes) x.2)

  absent_lem :
      (m : Workflows) (d : Candidate) → get m d.key ≡ none → count d (candidates record_bytes m) ≡ 0
  unfolding get candidates
  absent_lem [] d n = refl
  absent_lem ((k, w) ∷ m) d n = elim (Bool-cases (eq_text k d.key)) [
    | inl same ↦ absurd (ground (arith, eq_text_iff k d.key))
    | inr other ↦
        let later = absent_lem m d (rw other at n) in
        elim (Bool-cases (ltb 0 (part k w.history d))) [
          | inl some_here ↦
              let here = part_found k w.history d (ltb→lt 0 _ some_here) in
              absurd (ground (arith, eq_text_iff k d.key))
          | inr none_here ↦ ground (arith, candidates-cons k w w.history m d refl)
        ]
  ]

  -- A candidate of the state is a workflow with history, and its bytes are those of the history.
  found_lem :
      (m : Workflows) (d : Candidate)
      → Unique m
      → 0 < count d (candidates record_bytes m)
      → (w : Workflow) × (get m d.key ≡ some w) × Holds w.history d
  unfolding get candidates
  found_lem [] d u h = absurd (omega arith)
  found_lem ((k, w) ∷ m) d u h =
      let sum = candidates-cons k w w.history m d refl in
      elim (Bool-cases (eq_text k d.key)) [
        | inl same ↦
            let none_later = absent_lem m d (ground (arith, eq_text_iff k d.key)) in
            rw same (w, refl, (part_found k w.history d (omega arith)).1)
        | inr other ↦
            let none_here = part_found k w.history d in
            rw other (found_lem m d u.1 (ground (arith, eq_text_iff k d.key)))
      ]

  no_history :
      (k : Bytes) (w : Workflow) (h : List HistoryRecord) (m : Workflows)
      → w.history ≡ h
      → ((d : Candidate) → count d (candidates record_bytes ((k, w) ∷ m)) ≡ 0)
      → length h ≡ 0
  no_history k w [] m e none_at = refl
  no_history k w (r ∷ rest) m e none_at =
      let here : Candidate = record { key = k; bytes = total record_bytes (r ∷ rest) } in
      absurd (
        omega (
          arith,
          none_at here,
          candidates-cons k w (r ∷ rest) m here e,
          part_itself k (r ∷ rest) here refl (r, rest, refl, refl),
        ))

  pub none_left_lem :
      (m : Workflows) → ((d : Candidate) → count d (candidates record_bytes m) ≡ 0) → records m ≡ 0
  unfolding records
  none_left_lem [] h = refl
  none_left_lem ((k, w) ∷ m) h =
      let rest =
        none_left_lem m (λ d. omega (arith, h d, candidates-cons k w w.history m d refl)) in
      let empty : length w.history ≡ 0 = no_history k w w.history m refl h in omega arith

  candidates-put :
      (m : Workflows) (k : Bytes) (w v : Workflow) (d : Candidate)
      → get m k ≡ some v
      → count d (candidates record_bytes (put m k w)) + part k v.history d
        ≡ count d (candidates record_bytes m) + part k w.history d
  unfolding get put
  candidates-put [] k w v d h = absurd (cc)
  candidates-put ((j, x) ∷ m) k w v d h = elim (Bool-cases (eq_text j k)) [
    | inl same ↦
        let one_key : j ≡ k = ground (arith, eq_text_iff j k) in
        let found : some x ≡ some v = rw same at h in
        let v_is : x ≡ v = cc in
        rw same (
          ground (
            arith,
            ap (λ i. part i x.history d) one_key,
            ap (λ i. part i w.history d) one_key,
            ap (λ (y : Workflow). part k y.history d) v_is,
            candidates-cons j x x.history m d refl,
            candidates-cons j w w.history m d refl,
          ))
    | inr other ↦
        let there : get m k ≡ some v = rw other at h in
        rw other (
          omega (
            arith,
            candidates-put m k w v d there,
            candidates-cons j x x.history m d refl,
            candidates-cons j x x.history (put m k w) d refl,
          ))
  ]

  -- The plan has the candidates of the state, in any order.
  abbrev pub Tracks : List Candidate → Workflows → Type 0
  Tracks plan m = (d : Candidate) → count d plan ≡ count d (candidates record_bytes m)

  pub root_found :
      (m : Workflows) (c : Candidate) (cs : List Candidate)
      → Unique m
      → Tracks (c ∷ cs) m
      → (w : Workflow) × (get m c.key ≡ some w) × Holds w.history c
  root_found m c cs u tracks = found_lem m c u (ground (arith, tracks c, eq_text_refl c.key))

  pub evict_oldest_found :
      (m : Workflows) (c : Candidate) (cs : List Candidate)
      → Unique m
      → Tracks (c ∷ cs) m
      → (x : Workflows × HistoryRecord) × (evict_oldest m c.key (get m c.key) ≡ some (x.0, x.1))
        × Evicted m c.key x.0 x.1
  unfolding evict_oldest
  evict_oldest_found m c cs u tracks =
      let (w, there, (r, rest, history, bytes)) = root_found m c cs u tracks in
      (
        (put m c.key (record w { history = rest }), r),
        rw (there, history, evict_oldest) refl,
        record { from = w; rest = rest; found = there; oldest = history; stored = refl },
      )

  module _ (heap : Heap) (law : Permutes heap)
      (positive : (r : HistoryRecord) → 0 < record_bytes r) where
    shrink_lem :
        (c : Candidate) (cs : List Candidate) (r : HistoryRecord) (rest : List HistoryRecord)
        (d : Candidate)
        → c.bytes ≡ total record_bytes (r ∷ rest)
        → count d (shrink heap record_bytes (c ∷ cs) (record_bytes r))
          ≡ part c.key rest d + count d cs
    unfolding shrink part total
    shrink_lem c cs r [] d e =
        let enough : leb c.bytes (record_bytes r) ≡ true = le→leb _ _ (omega arith) in
        rw enough
          (omega (arith, law.pop_law less (record c { bytes = c.bytes - record_bytes r }) cs d))
    shrink_lem c cs r (x ∷ rest) d e =
        let more : leb c.bytes (record_bytes r) ≡ false = ground (arith, positive x) in
        let left : c.bytes - record_bytes r ≡ total record_bytes (x ∷ rest) = omega arith in
        rw more (
          law.fix_law less (record c { bytes = c.bytes - record_bytes r } ∷ cs) d
          ∙ ap (λ n. one d (record c { bytes = n }) + count d cs) left)

    pub shrink-Tracks :
        (m m' : Workflows) (c : Candidate) (cs : List Candidate) (r : HistoryRecord)
        → Unique m
        → Tracks (c ∷ cs) m
        → Evicted m c.key m' r
        → Tracks (shrink heap record_bytes (c ∷ cs) (record_bytes r)) m'
    unfolding part
    shrink-Tracks m m' c cs r u tracks v d =
        let (w, there, holds) = root_found m c cs u tracks in
        let one_workflow : some w ≡ some v.from = ground (arith, v.found) in
        let w_is : w ≡ v.from = cc in
        let bytes : c.bytes ≡ total record_bytes (r ∷ v.rest) =
          holds.3
          ∙ ap (total record_bytes)
              (sym holds.2 ∙ ap (λ (x : Workflow). x.history) w_is ∙ v.oldest) in
        let kept = candidates-put m c.key (record v.from { history = v.rest }) v.from d v.found in
        let gone : part c.key v.from.history d ≡ one d c =
          ap (λ h. part c.key h d) v.oldest
          ∙ ap (λ n. one d (record { key = c.key; bytes = n })) (sym bytes) in
        rw v.stored (omega (arith, shrink_lem c cs r v.rest d bytes, tracks d))
