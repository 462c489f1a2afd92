-- ===== src/State/Store/Saved.antt =====
-- What Load finds after Save, at its end and at every disk on its way, and after a failed Load.
use counterpoint.Prelude.{
  ℕ, zero, suc, ◌+◌, ◌≤◌, ◌≡◌, refl, ap, ◌∙◌, ◌⊎◌, inl, inr, Bool, true, List, [], ◌∷◌, Option,
  none, some, arith, All, length, take, Result, ok, err, Bool-cases, Option-cases, Result-cases,
  false, subst, sym, ◌++◌,
}
use counterpoint.Prelude.Text.{Bytes, codes}
use counterpoint.State.Store.{
  Workflows, Codec, Opened, missing, file, LoadError, SaveError, load, save, encode_state,
  loaded_after, save_content, max_state_file_size, parse, read_bounded,
}
use counterpoint.State.Store.Storable.{envelope_of, IsStorable, SameRecords, RoundTrips}
use counterpoint.State.Store.Write.{Files, write_atomic}
use counterpoint.State.Store.Write.Atomic.{Documented, IsAtomic, write_atomic-IsAtomic}

-- Reading the path back.
abbrev pub opened : Option Bytes → Opened
opened none = missing
opened (some content) = file content

take-all : (n : ℕ) (s : Bytes) → length s ≤ n → take n s ≡ s
take-all zero [] h = refl
take-all (suc n) [] h = refl
take-all zero (a ∷ s) h = absurd (omega arith)
take-all (suc n) (a ∷ s) h = ap (◌∷◌ a) (take-all n s (omega arith))

read_bounded_within :
    (content : Bytes) (limit : ℕ)
    → length content ≤ limit
    → read_bounded (file content) limit ≡ ok content
unfolding read_bounded
read_bounded_within content limit h = rw (take-all (limit + 1) content (omega arith)) (ground arith)

encode_state_bounded :
    (c : Codec) (m : Workflows) (content : Bytes)
    → encode_state c m ≡ ok content
    → length content ≤ max_state_file_size
unfolding encode_state
encode_state_bounded c m content h = ground arith

encode_state_text :
    (c : Codec) (m : Workflows) (content : Bytes)
    → encode_state c m ≡ ok content
    → (text : Bytes) × (c.encode (envelope_of m) ≡ some text) × (content ≡ text ++ codes "\n")
unfolding encode_state
encode_state_text c m content h = elim (Option-cases (c.encode (envelope_of m))) [
  | inl q ↦ absurd (ground (arith, q))
  | inr (text, q) ↦ (text, q, ground (arith, q))
]

module _ (c : Codec) (codec_law : RoundTrips c) (m : Workflows) (storable : IsStorable m) where
  -- Load has read a state with the records that were saved.
  abbrev pub IsSaved : Result LoadError Workflows × Bool → Type 0
  IsSaved r = (m' : Workflows) × (r ≡ (ok m', true)) × SameRecords m' m

  module _ (content : Bytes) (encoded : encode_state c m ≡ ok content) where
    parse_decoded : (m' : Workflows) × (parse c (ok content) ≡ ok m') × SameRecords m' m
    unfolding parse
    parse_decoded =
        let (text, written, whole) = encode_state_text c m content encoded in
        let (m', decoded, same) = codec_law m text storable written in
        (
          m',
          subst (λ (x : Bytes). parse c (ok x) ≡ ok m') (sym whole) (rw (decoded, parse) refl),
          same,
        )

    load_encoded : (mark : Bool) → IsSaved (load c (file content) mark)
    unfolding load
    load_encoded mark =
        let (m', parsed, same) = parse_decoded in
        (
          m',
          rw
              (read_bounded_within content max_state_file_size
                (encode_state_bounded c m content encoded))
              (rw (parsed, loaded_after) refl),
          same,
        )

    module _ (f : Files) (law : Documented f) (d : f.Disk) where
      atomic : IsAtomic f law (f.target d) content (write_atomic f content (f.make_dir d).0)
      atomic =
          write_atomic-IsAtomic f law (f.target d) content (f.make_dir d).0 (law.target-make_dir d)

      save_encoded : save f c true (some m) d ≡ save_content f content (f.make_dir d)
      unfolding save
      save_encoded = rw (encoded, save)

      replaced-save_content :
          (save_content f content (f.make_dir d)).0 ≡ ok tt
          → f.target (save_content f content (f.make_dir d)).1 ≡ some content
      unfolding save_content
      replaced-save_content h = ground (arith, atomic.replaced)

      -- What Load answers when the process starts again on this disk.
      abbrev loads : f.Disk → Result LoadError Workflows × Bool
      loads x = load c (opened (f.target x)) false

      loads_whole :
          (x : f.Disk)
          → (f.target x ≡ f.target d) ⊎ (f.target x ≡ some content)
          → (loads x ≡ loads d) ⊎ IsSaved (loads x)
      loads_whole x (inl e) = inl (ap (λ (t : Option Bytes). load c (opened t) false) e)
      loads_whole x (inr e) = inr (
          subst (λ (t : Option Bytes). IsSaved (load c (opened t) false)) (sym e)
            (load_encoded false))

      All-loads_whole :
          (xs : List f.Disk)
          → All (λ x. (f.target x ≡ f.target d) ⊎ (f.target x ≡ some content)) xs
          → All (λ x. (loads x ≡ loads d) ⊎ IsSaved (loads x)) xs
      All-loads_whole [] h = tt
      All-loads_whole (x ∷ xs) h = (loads_whole x h.0, All-loads_whole xs h.1)

      save_content-loads :
          let (_, final, seen) = save_content f content (f.make_dir d) in
          All (λ x. (loads x ≡ loads d) ⊎ IsSaved (loads x)) seen
          × ((loads final ≡ loads d) ⊎ IsSaved (loads final))
      unfolding save_content
      save_content-loads = elim (Bool-cases (f.make_dir d).1) [
        | inl e ↦
            rw (e, save_content)
              (
                (loads_whole _ (inl (law.target-make_dir d)), All-loads_whole _ atomic.on_the_way),
                loads_whole _ atomic.final,
              )
        | inr e ↦
            rw (e, save_content)
              (
                (loads_whole _ (inl (law.target-make_dir d)), tt),
                loads_whole _ (inl (law.target-make_dir d)),
              )
      ]

  module _ (f : Files) (law : Documented f) (d : f.Disk) where
    save_unencoded :
        (e : SaveError) → encode_state c m ≡ err e → save f c true (some m) d ≡ (err e, d, [])
    unfolding save
    save_unencoded e q = rw (q, save) refl

    -- For a state with texts in UTF-8 and numbers of 64 bits, with the round trip that encoding/json
    -- documents for such states and with what the operating system documents of the file
    -- operations: from every disk that Save passes through, and from the one that it leaves, Load
    -- reads either what it read before the call or a state with the records that were saved.
    pub save-loads :
        let (_, final, seen) = save f c true (some m) d in
        let load_at : f.Disk → Result LoadError Workflows × Bool =
          λ x. load c (opened (f.target x)) false in
        All (λ x. (load_at x ≡ load_at d) ⊎ IsSaved (load_at x)) seen
        × ((load_at final ≡ load_at d) ⊎ IsSaved (load_at final))
    save-loads = elim (Result-cases (encode_state c m)) [
      | inl (content, q) ↦
          rw (save_encoded content q f law d) (save_content-loads content q f law d)
      | inr (e, q) ↦ rw (save_unencoded e q) (tt, inl refl)
    ]

    -- For such a state and with the same documented behaviour: after a Save that succeeds, Load
    -- succeeds and reads a state with the records that were saved, under every key.
    pub load-save :
        (save f c true (some m) d).0 ≡ ok tt
        → (mark : Bool) → IsSaved (load c (opened (f.target (save f c true (some m) d).1)) mark)
    load-save h mark = elim (Result-cases (encode_state c m)) [
      | inl (content, q) ↦
          let same = save_encoded content q f law d in
          let replaced = replaced-save_content content q f law d (rw same at h) in
          subst (λ (t : Option Bytes). IsSaved (load c (opened t) mark))
            (sym (
              ap (λ (r : Result SaveError (Unit {0}) × f.Disk × List f.Disk). f.target r.1) same
              ∙ replaced))
            (load_encoded content q mark)
      | inr (e, q) ↦ let same = save_unencoded e q in absurd (cc)
    ]
