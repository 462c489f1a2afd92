-- ===== src/State/Store/Write/Atomic.antt =====
-- The atomicity of writeAtomic, from what the operating system documents of its file operations.
use counterpoint.Prelude.{
  ◌≡◌, refl, Bool, true, false, Option, none, some, ◌⊎◌, inl, inr, arith, [], All, ◌∙◌,
  if◌then◌else◌, Bool-cases,
}
use counterpoint.Prelude.Text.{Bytes}
use counterpoint.State.Store.Write.{Files, Run, abort, visit, attempt, finish, write_atomic}

module _ (f : Files) where
  open f use {Disk}

  -- What the operating system documents of these operations: only a rename that succeeds changes
  -- what a reader of the state file finds, and it puts the temporary file's content there.
  pub record Documented : Type 0 where
    pub target-make_dir : (d : Disk) → f.target (f.make_dir d).0 ≡ f.target d
    pub target-create_temp : (d : Disk) → f.target (f.create_temp d).0 ≡ f.target d
    pub target-chmod : (d : Disk) → f.target (f.chmod d).0 ≡ f.target d
    pub target-write : (content : Bytes) (d : Disk) → f.target (f.write content d).0 ≡ f.target d
    pub target-sync : (d : Disk) → f.target (f.sync d).0 ≡ f.target d
    pub target-close : (d : Disk) → f.target (f.close d).0 ≡ f.target d
    pub target-remove : (d : Disk) → f.target (f.remove d).0 ≡ f.target d
    pub target-sync_dir : (d : Disk) → f.target (f.sync_dir d).0 ≡ f.target d
    pub temp-create_temp :
        (d : Disk) → (f.create_temp d).1 ≡ true → f.temp (f.create_temp d).0 ≡ some []
    pub temp-create_failed :
        (d : Disk) → (f.create_temp d).1 ≡ false → f.temp (f.create_temp d).0 ≡ none
    pub temp-chmod : (d : Disk) → f.temp (f.chmod d).0 ≡ f.temp d
    pub temp-write :
        (content : Bytes) (d : Disk)
        → f.temp d ≡ some []
        → (f.write content d).1 ≡ true
        → f.temp (f.write content d).0 ≡ some content
    pub temp-sync : (d : Disk) → f.temp (f.sync d).0 ≡ f.temp d
    pub temp-close : (d : Disk) → f.temp (f.close d).0 ≡ f.temp d
    pub temp-remove : (d : Disk) → (f.remove d).1 ≡ true → f.temp (f.remove d).0 ≡ none
    pub target-rename :
        (d : Disk) → f.target (f.rename d).0 ≡ (if (f.rename d).1 then f.temp d else f.target d)

  module _ (law : Documented) (old : Option Bytes) (content : Bytes) where
    -- A reader finds the old file or the whole new one.
    abbrev pub Whole : Disk → Type 0
    Whole d = (f.target d ≡ old) ⊎ (f.target d ≡ some content)

    -- The last thing done was a removal that failed.
    abbrev pub IsStuck : Disk → Type 0
    IsStuck d = (x : Disk) × ((f.remove x).1 ≡ false) × (d ≡ (f.remove x).0)

    -- A run is atomic when every disk on the way is whole, success leaves the new content, and a
    -- failure that leaves the old one leaves no temporary file, unless its removal failed.
    pub record IsAtomic (r : Run f) : Type 0 where
      pub on_the_way : All Whole r.2
      pub final : Whole r.1
      pub replaced : r.0 ≡ true → f.target r.1 ≡ some content
      pub tidy : r.0 ≡ false → (f.target r.1 ≡ some content) ⊎ ((f.temp r.1 ≡ none) ⊎ IsStuck r.1)

    abort-IsAtomic : (d : Disk) → f.target d ≡ old → IsAtomic (abort f d)
    unfolding abort
    abort-IsAtomic d h =
        let kept : f.target (f.remove (f.close d).0).0 ≡ old =
          law.target-remove (f.close d).0 ∙ (law.target-close d ∙ h) in
        record {
          on_the_way = (inl h, (inl kept, tt));
          final = inl kept;
          replaced = λ e. absurd (cc);
          tidy = λ _. elim (Bool-cases (f.remove (f.close d).0).1) [
            | inl gone ↦ inr (inl (law.temp-remove (f.close d).0 gone))
            | inr stays ↦ inr (inr ((f.close d).0, stays, refl))
          ];
        }

    visit-IsAtomic : (d : Disk) (r : Run f) → Whole d → IsAtomic r → IsAtomic (visit f d r)
    unfolding visit
    visit-IsAtomic d r h a = record {
      on_the_way = (h, a.on_the_way);
      final = a.final;
      replaced = a.replaced;
      tidy = a.tidy;
    }

    attempt-IsAtomic :
        (op : Disk → Disk × Bool) (d : Disk) (rest : Disk → Run f)
        → Whole (op d).0
        → ((op d).1 ≡ false → f.target (op d).0 ≡ old)
        → ((op d).1 ≡ true → IsAtomic (rest (op d).0))
        → IsAtomic (attempt f op d rest)
    unfolding attempt
    attempt-IsAtomic op d rest w failed succeeded = elim (Bool-cases (op d).1) [
      | inl e ↦ rw e (visit-IsAtomic _ _ w (succeeded e))
      | inr e ↦ rw e (abort-IsAtomic _ (failed e))
    ]

    finish-IsAtomic : (d : Disk) → f.target d ≡ some content → IsAtomic (finish f d)
    unfolding finish
    finish-IsAtomic d h = ground (arith, law.target-sync_dir d)

    rename-IsAtomic :
        (d : Disk)
        → f.target d ≡ old
        → f.temp d ≡ some content
        → IsAtomic (attempt f f.rename d (finish f))
    rename-IsAtomic d h t =
        attempt-IsAtomic f.rename d (finish f) (ground (arith, law.target-rename d))
          (λ e. ground (arith, law.target-rename d))
          (λ e. finish-IsAtomic _ (ground (arith, law.target-rename d)))

    -- An operation that does not touch the state file's path, before the rename.
    keeps-IsAtomic :
        (op : Disk → Disk × Bool) (d : Disk) (rest : Disk → Run f)
        → f.target (op d).0 ≡ old
        → ((op d).1 ≡ true → IsAtomic (rest (op d).0))
        → IsAtomic (attempt f op d rest)
    keeps-IsAtomic op d rest h succeeded = attempt-IsAtomic op d rest (inl h) (λ _. h) succeeded

    sync-IsAtomic :
        (d : Disk)
        → f.target d ≡ old
        → f.temp d ≡ some content
        → IsAtomic
            (attempt f f.sync d (λ e. attempt f f.close e (λ g. attempt f f.rename g (finish f))))
    sync-IsAtomic d h t =
        let synced = law.target-sync d ∙ h in
        let kept = law.temp-sync d ∙ t in
        keeps-IsAtomic f.sync d _ synced (λ _.
          keeps-IsAtomic f.close _ _ (law.target-close _ ∙ synced)
            (λ _. rename-IsAtomic _ (law.target-close _ ∙ synced) (law.temp-close _ ∙ kept)))

    chmod-IsAtomic :
        (d : Disk)
        → f.target d ≡ old
        → f.temp d ≡ some []
        → IsAtomic (
            attempt f f.chmod d (λ b. attempt f (f.write content) b (λ c.
              attempt f f.sync c
                (λ e. attempt f f.close e (λ g. attempt f f.rename g (finish f))))))
    chmod-IsAtomic d h t =
        let moded = law.target-chmod d ∙ h in
        let kept = law.temp-chmod d ∙ t in
        keeps-IsAtomic f.chmod d _ moded (λ _.
          keeps-IsAtomic (f.write content) _ _ (law.target-write content _ ∙ moded) (λ e.
            sync-IsAtomic _ (law.target-write content _ ∙ moded) (law.temp-write content _ kept e)))

    -- Every disk that writeAtomic passes through has the old state file or the complete new one,
    -- success means the new one, and a failure either has replaced it, or has left no temporary file,
    -- or has ended with a removal of that file that failed.
    pub write_atomic-IsAtomic : (d : Disk) → f.target d ≡ old → IsAtomic (write_atomic f content d)
    unfolding write_atomic
    write_atomic-IsAtomic d h =
        let h' = law.target-create_temp d ∙ h in
        elim (Bool-cases (f.create_temp d).1) [
          | inl e ↦
              rw e (visit-IsAtomic _ _ (inl h') (chmod-IsAtomic _ h' (law.temp-create_temp d e)))
          | inr e ↦ rw e (record {
            on_the_way = (inl h', tt);
            final = inl h';
            replaced = λ k. cc;
            tidy = λ _. inr (inl (law.temp-create_failed d e));
          })
        ]
