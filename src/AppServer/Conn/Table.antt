-- ===== src/AppServer/Conn/Table.antt =====
-- internal/appserver/conn.go: the map of pending calls and their reply channels.
use counterpoint.Prelude.{
  ℕ, suc, ◌+◌, ◌≤◌, ◌<◌, ◌≡◌, refl, List, [], ◌∷◌, some, ◌==◌, arith, All, if◌then◌else◌,
  Bool-cases, inl, inr,
}
use counterpoint.Prelude.Int.{ℤ, eqb_ℤ, eqb_ℤ_iff}
use counterpoint.AppServer.Conn.{
  Envelope, Codec, Channel, empty, closed_channel, holding, Entry, update, lookup, delete,
}
use counterpoint.AppServer.Conn.Calls.{id_of}

-- How many entries have channel n.
unfoldable pub uses : ℕ → List Entry → ℕ
uses n [] = 0
uses n (e ∷ es) = (if e.channel == n then 1 else 0) + uses n es

-- Each entry stands under the id of its call.
abbrev pub IsNamed : List Entry → Type 0
IsNamed = All (λ (e : Entry). e.id ≡ id_of e.channel)

-- A channel that only the reader can fill or close is empty, and is so for one entry.
pub record IsTable (k : Codec) (next : ℕ) (taken pending : List Entry) (channels : ℕ → Channel)
    : Type 0 where
  pub once : (n : ℕ) → uses n taken + uses n pending ≤ 1
  pub unfilled : (n : ℕ) → 0 < uses n taken + uses n pending → channels n ≡ empty
  pub fresh : (n : ℕ) → next < n → uses n taken + uses n pending ≡ 0
  pub named : IsNamed pending
  pub replies :
      (n : ℕ) (env : Envelope) → channels n ≡ holding env → k.int_of env.id ≡ some (id_of n)

uses-delete : (n : ℕ) (id : ℤ) (es : List Entry) → uses n (delete id es) ≤ uses n es
unfolding uses delete
uses-delete n id [] = omega arith
uses-delete n id (e ∷ es) = ground (arith, uses-delete n id es)

pub uses-delete-lookup :
    (n : ℕ) (id : ℤ) (es : List Entry) → lookup id es ≡ some n → uses n (delete id es) < uses n es
unfolding uses delete lookup
uses-delete-lookup n id [] h = absurd (cc)
uses-delete-lookup n id (e ∷ es) h = ground (arith, uses-delete-lookup n id es, uses-delete n id es)

delete-IsNamed : (id : ℤ) (es : List Entry) → IsNamed es → IsNamed (delete id es)
unfolding delete
delete-IsNamed id [] h = tt
delete-IsNamed id (e ∷ es) (p, ps) =
    let rest = delete-IsNamed id es ps in
    elim (Bool-cases (eqb_ℤ e.id id)) [ inl q ↦ rw q rest | inr q ↦ rw q (p, rest) ]

lookup_named :
    (n : ℕ) (id : ℤ) (es : List Entry) → IsNamed es → lookup id es ≡ some n → id ≡ id_of n
unfolding lookup
lookup_named n id [] ps h = absurd (cc)
lookup_named n id (e ∷ es) (p, ps) h = ground (arith, eqb_ℤ_iff e.id id, lookup_named n id es ps)

module _ {k : Codec} {next : ℕ} {taken pending : List Entry} {channels : ℕ → Channel}
    (t : IsTable k next taken pending channels) where
  pub delete-IsTable : (id : ℤ) → IsTable k next taken (delete id pending) channels
  delete-IsTable id = record {
    once = λ n. omega (arith, t.once n, uses-delete n id pending);
    unfilled = λ n h. t.unfilled n (omega (arith, uses-delete n id pending));
    fresh = λ n h. omega (arith, t.fresh n h, uses-delete n id pending);
    named = delete-IsNamed id pending t.named;
    replies = t.replies;
  }

  pub register-IsTable :
      IsTable k
        (suc next)
        taken
        (record { id = id_of (suc next); channel = suc next } ∷ delete (id_of (suc next)) pending)
        (update channels (suc next) empty)
  unfolding uses
  register-IsTable =
      let id = id_of (suc next) in
      record {
        once = λ n. ground (arith, t.once n, t.fresh n, uses-delete n id pending);
        unfilled = λ n h. ground (arith, t.unfilled n, uses-delete n id pending);
        fresh = λ n h. ground (arith, t.fresh n, uses-delete n id pending);
        named = (refl, delete-IsNamed id pending t.named);
        replies = λ n env h. ground (arith, t.replies n env);
      }

  pub put-IsTable :
      (n : ℕ) (id : ℤ) (env : Envelope)
      → lookup id pending ≡ some n
      → k.int_of env.id ≡ some id
      → IsTable k next taken (delete id pending) (update channels n (holding env))
  put-IsTable n id env l d = record {
    once = λ m. omega (arith, t.once m, uses-delete m id pending);
    unfilled = λ m h. ground (
      arith,
      t.once m,
      t.unfilled m,
      uses-delete m id pending,
      uses-delete-lookup n id pending l,
    );
    fresh = λ m h. omega (arith, t.fresh m h, uses-delete m id pending);
    named = delete-IsNamed id pending t.named;
    replies = λ m e h. ground (arith, t.replies m e, lookup_named n id pending t.named l);
  }

  pub receive-IsTable :
      (n : ℕ) (env : Envelope)
      → channels n ≡ holding env
      → IsTable k next taken pending (update channels n empty)
  receive-IsTable n env h = record {
    once = t.once;
    unfilled = λ m p. ground (arith, t.unfilled m p);
    fresh = t.fresh;
    named = t.named;
    replies = λ m e q. ground (arith, t.replies m e);
  }

pub close-IsTable :
    {k : Codec} {next : ℕ} {x : Entry} {xs pending : List Entry} {channels : ℕ → Channel}
    → IsTable k next (x ∷ xs) pending channels
    → IsTable k next xs pending (update channels x.channel closed_channel)
unfolding uses
close-IsTable {k} {next} {x} {xs} {pending} t = record {
  once = λ n. omega (arith, t.once n);
  unfilled = λ n h. ground (arith, t.once n, t.unfilled n);
  fresh = λ n h. ground (arith, t.fresh n h);
  named = t.named;
  replies = λ n e q. ground (arith, t.replies n e);
}
