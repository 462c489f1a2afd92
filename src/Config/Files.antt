-- ===== src/Config/Files.antt =====
-- internal/config/config.go: where the configuration file is, and when it is there or read whole.
use counterpoint.Prelude.{
  ℕ, zero, suc, ◌+◌, ◌≤◌, ◌≡◌, ◌≢◌, ◌↔◌, ◌⊎◌, inl, inr, refl, true, false, [], ◌∷◌, Option, none,
  some, length, take, ltb, if◌then◌else◌, is_empty, arith, ok, err, Result, ap, Option-cases,
  Result-cases, ◌<◌, ◌>>=◌, subst, sym,
}
use counterpoint.Prelude.Text.{Bytes, codes}
use counterpoint.Config.{
  Machine, FileInfo, File, Lookup, missing, failed, present, ConfigError, invalid, path_of, regular,
  limited, read_file, read, max_bytes,
}

-- The location: an absolute path from the environment, else a file in the user's directory.
abbrev pub IsLocated : Machine → Bytes → Type 0
IsLocated m path =
    ((is_empty m.env_path ≡ false) × (m.is_abs m.env_path ≡ true) × (path ≡ m.env_path))
    ⊎ ((is_empty m.env_path ≡ true)
        × ((dir : Bytes) × (m.user_config_dir ≡ some dir)
            × (path ≡ m.join (dir ∷ codes "counterpoint" ∷ codes "config.json" ∷ []))))

pub path_of_iff : (m : Machine) (path : Bytes) → (path_of m ≡ ok path) ↔ IsLocated m path
unfolding path_of
path_of_iff m path = ground arith

pub record IsRegular (info : FileInfo) : Type 0 where
  pub no_directory : info.is_dir ≡ false
  pub is_file : info.is_regular ≡ true
  pub small : info.size ≤ max_bytes

regular_iff : (info : FileInfo) → (regular info ≡ ok tt) ↔ IsRegular info
unfolding regular
regular_iff info = ground arith

-- A cut that leaves room has cut nothing.
uncut : (m n : ℕ) (s : Bytes) → n < m → length (take m s) ≤ n → (take m s ≡ s) × (length s ≤ n)
uncut zero n [] lt h = (refl, omega (arith, h))
uncut (suc m) n [] lt h = (refl, omega (arith, h))
uncut zero n (b ∷ s) lt h = absurd (omega (arith, lt))
uncut (suc m) zero (b ∷ s) lt h = absurd (omega (arith, h))
uncut (suc m) (suc n) (b ∷ s) lt h =
    let (same, le) = uncut m n s (omega arith) (omega (arith, h)) in
    (ap (◌∷◌ b) same, omega (arith, le))

short_uncut : (m : ℕ) (s : Bytes) → length s ≤ m → take m s ≡ s
short_uncut zero [] h = refl
short_uncut (suc m) [] h = refl
short_uncut zero (b ∷ s) h = absurd (omega (arith, h))
short_uncut (suc m) (b ∷ s) h = ap (◌∷◌ b) (short_uncut m s (omega arith))

-- An open file with this content.
pub record IsContent (f : File) (raw : Bytes) : Type 0 where
  pub info_now : (info : FileInfo) × (f.info ≡ some info) × IsRegular info
  pub content_is : f.content ≡ some raw
  pub fits : length raw ≤ max_bytes

cut_to :
    (n : ℕ) (c raw : Bytes)
    → (if ltb n (length (take (n + 1) c)) then err invalid else ok (some (take (n + 1) c)))
      ≡ ok (some raw)
    → (c ≡ raw) × (length raw ≤ n)
cut_to n c raw h = ground (arith, uncut (n + 1) n c)

cut_from :
    (n : ℕ) (c : Bytes)
    → length c ≤ n
    → (if ltb n (length (take (n + 1) c)) then err invalid else ok (some (take (n + 1) c)))
      ≡ ok (some c)
cut_from n c h = rw (short_uncut (n + 1) c (omega arith)) (ground (arith, h))

cut_none :
    (n : ℕ) (c : Bytes)
    → (if ltb n (length (take (n + 1) c)) then err invalid else ok (some (take (n + 1) c)))
      ≢ ok none
cut_none n c h = ground arith

limited_to :
    (o : Option Bytes) (raw : Bytes)
    → limited o ≡ ok (some raw)
    → (o ≡ some raw) × (length raw ≤ max_bytes)
unfolding limited
limited_to none raw h = absurd (cc)
limited_to (some c) raw h = let (same, le) = cut_to max_bytes c raw h in (ap some same, le)

limited_from :
    (o : Option Bytes) (raw : Bytes)
    → o ≡ some raw
    → length raw ≤ max_bytes
    → limited o ≡ ok (some raw)
unfolding limited
limited_from o raw e le =
    subst (λ (x : Option Bytes). limited x ≡ ok (some raw)) (sym e) (cut_from max_bytes raw le)

checked_to :
    (info : FileInfo) (r : Result ConfigError (Option Bytes)) (o : Option Bytes)
    → (regular info >>= λ _. r) ≡ ok o
    → IsRegular info × (r ≡ ok o)
checked_to info r o h = elim (Result-cases (regular info)) [
  | inl (u, q) ↦ ((regular_iff info).0 (q), ground (arith, q))
  | inr (e, q) ↦ absurd (ground (arith, q))
]

checked_from :
    (info : FileInfo) (r : Result ConfigError (Option Bytes)) (o : Option Bytes)
    → IsRegular info
    → r ≡ ok o
    → (regular info >>= λ _. r) ≡ ok o
checked_from info r o g h = rw ((regular_iff info).1 g) h

-- Reading an open file gives its content, when it is a regular file within the bound.
read_file_to :
    (l : Lookup File) (raw : Bytes)
    → read_file l ≡ ok (some raw)
    → (f : File) × (l ≡ present f) × IsContent f raw
unfolding read_file
read_file_to missing raw h = absurd (cc)
read_file_to failed raw h = absurd (cc)
read_file_to (present f) raw h = elim (Option-cases f.info) [
  | inl q ↦ absurd (ground (arith, q))
  | inr (info, q) ↦
      let (is_file, rest) = checked_to info (limited f.content) (some raw) (rw q at h) in
      let (content, le) = limited_to f.content raw rest in
      (f, refl, record { info_now = (info, q, is_file); content_is = content; fits = le })
]

read_file_from : (f : File) (raw : Bytes) → IsContent f raw → read_file (present f) ≡ ok (some raw)
unfolding read_file
read_file_from f raw c =
    let (info, q, is_file) = c.info_now in
    rw q (
      checked_from info (limited f.content) (some raw) is_file
        (limited_from f.content raw c.content_is c.fits))

-- The path names a regular file, which is opened and then has this content.
abbrev pub IsFile : Machine → Bytes → Bytes → Type 0
IsFile m path raw =
    ((info : FileInfo) × (m.stat path ≡ present info) × IsRegular info)
    × ((f : File) × (m.open_file path ≡ present f) × IsContent f raw)

-- Nothing is there, at the first look or when the file is opened.
abbrev pub IsAbsent : Machine → Bytes → Type 0
IsAbsent m path =
    (m.stat path ≡ missing)
    ⊎ (((info : FileInfo) × (m.stat path ≡ present info) × IsRegular info)
        × (m.open_file path ≡ missing))

limited-none : (o : Option Bytes) → limited o ≢ ok none
unfolding limited
limited-none none h = cc
limited-none (some c) h = cut_none max_bytes c h

read_file-none : (l : Lookup File) → read_file l ≡ ok none → l ≡ missing
unfolding read_file
read_file-none missing h = refl
read_file-none failed h = absurd (cc)
read_file-none (present f) h = elim (Option-cases f.info) [
  | inl q ↦ absurd (ground (arith, q))
  | inr (info, q) ↦
      absurd (limited-none f.content (checked_to info (limited f.content) none (rw q at h)).1)
]

at_path :
    (m : Machine) (path : Bytes) (l : Lookup FileInfo) (o : Option Bytes)
    → m.stat path ≡ l
    → read m path ≡ ok o
    → ((l ≡ missing) × (o ≡ none))
      ⊎ ((info : FileInfo) × (l ≡ present info)
          × IsRegular info
          × (read_file (m.open_file path) ≡ ok o))
unfolding read
at_path m path missing o q h = inl (refl, ground (arith, q))
at_path m path failed o q h = absurd (ground (arith, q))
at_path m path (present info) o q h =
    let (is_file, rest) = checked_to info (read_file (m.open_file path)) o (rw (q, read) at h) in
    inr (info, refl, is_file, rest)

pub read_to : (m : Machine) (path raw : Bytes) → read m path ≡ ok (some raw) → IsFile m path raw
read_to m path raw h = elim (at_path m path (m.stat path) (some raw) refl h) [
  | inl (e, n) ↦ absurd (cc)
  | inr (info, e, is_file, rest) ↦ ((info, e, is_file), read_file_to (m.open_file path) raw rest)
]

pub read_from : (m : Machine) (path raw : Bytes) → IsFile m path raw → read m path ≡ ok (some raw)
unfolding read
read_from m path raw ((info, q, is_file), (f, o, content)) =
    rw (q, read)
      (checked_from info (read_file (m.open_file path)) (some raw) is_file
        (rw o (read_file_from f raw content)))

IsAbsent-to : (m : Machine) (path : Bytes) → read m path ≡ ok none → IsAbsent m path
IsAbsent-to m path h = elim (at_path m path (m.stat path) none refl h) [
  | inl (e, _) ↦ inl e
  | inr (info, e, is_file, rest) ↦ inr ((info, e, is_file), read_file-none (m.open_file path) rest)
]

absent_from : (m : Machine) (path : Bytes) → IsAbsent m path → read m path ≡ ok none
unfolding read read_file
absent_from m path (inl q) = ground (arith, q)
absent_from m path (inr ((info, q, is_file), o)) =
    rw (q, read) (checked_from info (read_file (m.open_file path)) none is_file (rw o refl))

pub IsAbsent-iff : (m : Machine) (path : Bytes) → (read m path ≡ ok none) ↔ IsAbsent m path
IsAbsent-iff m path = (IsAbsent-to m path, absent_from m path)
