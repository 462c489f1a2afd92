-- ===== src/State/Store/Write.antt =====
-- writeAtomic of internal/state/state.go over the file operations that it calls. Each operation
-- returns the new state of the disk and whether it succeeded.
pub mod Atomic
use counterpoint.Prelude.{
  ◌≡◌, refl, Bool, true, false, Option, none, some, ap, ◌⊎◌, inl, inr, arith, List, [], ◌∷◌, All,
  if◌then◌else◌, Bool-cases,
}
use counterpoint.Prelude.Text.{Bytes}

pub record Files : Type 1 where
  pub Disk : Type 0
  -- What a reader of the state file's path, and of the temporary file's, finds.
  pub target : Disk → Option Bytes
  pub temp : Disk → Option Bytes
  pub make_dir : Disk → Disk × Bool
  pub create_temp : Disk → Disk × Bool
  pub chmod : Disk → Disk × Bool
  pub write : Bytes → Disk → Disk × Bool
  pub sync : Disk → Disk × Bool
  pub close : Disk → Disk × Bool
  pub rename : Disk → Disk × Bool
  pub remove : Disk → Disk × Bool
  pub sync_dir : Disk → Disk × Bool

-- What `writeAtomic` returns: success, the disk at its end, and each disk on the way.
abbrev pub Run : (f : Files) → Type 0
Run f = Bool × f.Disk × List f.Disk

module _ (f : Files) where
  open f use {Disk}

  -- The deferred call, when the rename has not happened. An error of the removal is discarded.
  cleanup : Disk → Disk
  cleanup d = (f.remove (f.close d).0).0

  abort : Disk → Run f
  unfolding cleanup
  abort d = (false, cleanup d, d ∷ cleanup d ∷ [])

  visit : Disk → Run f → Run f
  visit d r = (r.0, r.1, d ∷ r.2)

  -- One fallible operation, and the rest on its success.
  attempt : (Disk → Disk × Bool) → Disk → (Disk → Run f) → Run f
  attempt op d rest =
      let (d', succeeded) = op d in if succeeded then visit d' (rest d') else abort d'

  finish : Disk → Run f
  finish d = let (d', synced) = f.sync_dir d in (synced, d', d' ∷ [])

  unfoldable pub write_atomic : Bytes → Disk → Run f
  unfolding abort visit attempt finish
  write_atomic content d =
      let (a, created) = f.create_temp d in
      if created
      then visit a (
          attempt f.chmod a (λ b.
            attempt (f.write content) b
              (λ c. attempt f.sync c (λ e. attempt f.close e (λ g. attempt f.rename g finish)))))
      else (false, a, a ∷ [])
