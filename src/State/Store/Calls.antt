-- ===== src/State/Store/Calls.antt =====
-- Save and Load of internal/state/state.go in any order, after a Load that has failed.
use counterpoint.Prelude.{
  ◌≡◌, refl, ap, ◌∙◌, Bool, List, [], ◌∷◌, Option, All, err, false, subst, sym,
}
use counterpoint.State.Store.{
  Workflows, Codec, Opened, LoadError, load, save, loaded_after, max_state_file_size, not_loaded,
  parse, read_bounded,
}
use counterpoint.State.Store.Write.{Files}

-- What is done with a store: a Load that finds this at the path, or a Save.
pub data StoreCall : Type 0 where
  load_call : Opened → StoreCall
  save_call : Option Workflows → StoreCall

module _ (f : Files) (c : Codec) where
  -- The mark and the disk after a call.
  unfoldable pub after_call : StoreCall → Bool × f.Disk → Bool × f.Disk
  after_call (load_call content) (mark, d) = ((load c content mark).1, d)
  after_call (save_call m) (mark, d) = (mark, (save f c mark m d).1)

  unfoldable pub after_calls : List StoreCall → Bool × f.Disk → Bool × f.Disk
  unfolding after_call
  after_calls [] s = s
  after_calls (x ∷ xs) s = after_calls xs (after_call x s)

  -- Every Load among the calls fails.
  abbrev pub IsFailing : StoreCall → Type 0
  IsFailing (load_call content) =
      (e : LoadError) × (parse c (read_bounded content max_state_file_size) ≡ err e)
  IsFailing (save_call m) = Unit {0}

  unloaded_calls :
      (xs : List StoreCall) (d : f.Disk) → All IsFailing xs → after_calls xs (false, d) ≡ (false, d)
  unfolding after_calls load save
  unloaded_calls [] d h = refl
  unloaded_calls (load_call content ∷ xs) d ((e, q), hs) =
      rw (q, loaded_after) (unloaded_calls xs d hs)
  unloaded_calls (save_call m ∷ xs) d (h, hs) = unloaded_calls xs d hs

  -- Once a Load has failed, whatever was loaded before, no call changes the disk until a Load
  -- succeeds: any sequence of Saves and of Loads that fail leaves the disk as it is and the store
  -- without its mark, so that a further Save is refused.
  pub after_calls-load_failed :
      (content : Opened) (e : LoadError) (xs : List StoreCall) (mark : Bool) (d : f.Disk)
      (m : Option Workflows)
      → parse c (read_bounded content max_state_file_size) ≡ err e
      → All IsFailing xs
      → let (mark', d') = after_calls (load_call content ∷ xs) (mark, d) in
        (d' ≡ d) × (save f c mark' m d' ≡ (err not_loaded, d', []))
  unfolding after_calls load save
  after_calls-load_failed content e xs mark d m q hs =
      let unmarked : after_calls (load_call content ∷ xs) (mark, d) ≡ (false, d) =
        ap (λ (b : Bool). after_calls xs (b, d)) (ap (loaded_after false) q)
        ∙ unloaded_calls xs d hs in
      subst (λ (s : Bool × f.Disk). (s.1 ≡ d) × (save f c s.0 m s.1 ≡ (err not_loaded, s.1, [])))
        (sym unmarked) (refl, refl)
