-- ===== src/Server/Threads/Owners.antt =====
-- Every user is served by one thread at most, whatever the order in which the threads go on.
use ece.Base.{
  ℕ, zero, suc, ◌≡◌, refl, ◌∙◌, ap, sym, subst, ◌≢◌, ◌⊎◌, inl, inr, List, [], ◌∷◌, ◌++◌, some,
  Bytes, get_elem?,
}
use mathlib.Core.Option.{some-injective}
use native.Mathlib.Decide.{ℕ_discrete}
use ece.Store.{User, Server, offline}
use ece.Server.Invariant.{IsValid}
use ece.Server.Safety.{LoggedIn}
use ece.Server.Threads.{Thread, connected, serving, exiting, closed, owner, put}
use ece.Server.Threads.Kept.{Kept}

-- The pointer that a thread holds in the middle of server_side_user_exit is that of its user, who is in
-- no session any more.
abbrev pub Holds : Thread → ℕ → User → Type 0
Holds connected i u = Unit
Holds (serving name) i u = Unit
Holds (exiting name p) i u = (p ≡ i) × (u.in_session ≡ offline)
Holds closed i u = Unit

-- The user of a thread is in the table and online.
abbrev pub Serves : Server → Thread → Bytes → Type 0
Serves s th n = (i : ℕ) × (u : User) × LoggedIn n s i u × Holds th i u

-- A valid table, every thread's user is online, and no two threads have one user.
pub record IsSafe (s : Server) (ts : List Thread) : Type 0 where
  pub valid : IsValid s
  pub owned :
      (k : ℕ) (th : Thread) (n : Bytes)
      → get_elem? ts k ≡ some th
      → owner th ≡ some n
      → Serves s th n
  pub single :
      (k l : ℕ) (a b : Thread) (n : Bytes)
      → get_elem? ts k ≡ some a
      → get_elem? ts l ≡ some b
      → owner a ≡ some n
      → owner b ≡ some n
      → k ≡ l

Holds-out :
    (th : Thread) (i : ℕ) (u v : User)
    → (u.in_session ≡ offline → v.in_session ≡ offline)
    → Holds th i u
    → Holds th i v
Holds-out connected i u v out h = tt
Holds-out (serving name) i u v out h = tt
Holds-out (exiting name p) i u v out h = (h.0, out h.1)
Holds-out closed i u v out h = tt

put_self :
    (k : ℕ) (th old : Thread) (ts : List Thread)
    → get_elem? ts k ≡ some old
    → get_elem? (put k th ts) k ≡ some th
put_self k th old [] h = absurd (cc)
put_self zero th old (x ∷ ts) h = refl
put_self (suc k) th old (x ∷ ts) h = put_self k th old ts h

put_other :
    (k l : ℕ) (th : Thread) (ts : List Thread) → k ≢ l → get_elem? (put k th ts) l ≡ get_elem? ts l
put_other k l th [] h = refl
put_other zero zero th (x ∷ ts) h = absurd (h refl)
put_other zero (suc l) th (x ∷ ts) h = refl
put_other (suc k) zero th (x ∷ ts) h = refl
put_other (suc k) (suc l) th (x ∷ ts) h = put_other k l th ts (λ e. h (ap suc e))

pub put_same :
    (k : ℕ) (th : Thread) (ts : List Thread) → get_elem? ts k ≡ some th → put k th ts ≡ ts
put_same k th [] h = refl
put_same zero th (x ∷ ts) h = ap (λ y. y ∷ ts) (sym (some-injective _ _ h))
put_same (suc k) th (x ∷ ts) h = ap (λ r. x ∷ r) (put_same k th ts h)

-- What stands in the list after a thread has gone on.
put_cases :
    (k l : ℕ) (th b : Thread) (ts : List Thread) (old : Thread)
    → get_elem? ts k ≡ some old
    → get_elem? (put k th ts) l ≡ some b
    → ((k ≡ l) × (th ≡ b)) ⊎ ((k ≢ l) × (get_elem? ts l ≡ some b))
put_cases k l th b ts old at h = elim (ℕ_discrete k l) [
  | yes e ↦ inl (
    e,
    some-injective _ _
        (sym (put_self k th old ts at) ∙ subst (λ z. get_elem? (put k th ts) z ≡ some b) (sym e) h),
  )
  | no n ↦ inr (n, sym (put_other k l th ts n) ∙ h)
]

-- The list after a connection.
pub push_cases :
    (l : ℕ) (b : Thread) (ts : List Thread)
    → get_elem? (ts ++ connected ∷ []) l ≡ some b
    → (get_elem? ts l ≡ some b) ⊎ (b ≡ connected)
push_cases zero b [] h = inr (sym (some-injective _ _ h))
push_cases (suc l) b [] h = absurd (cc)
push_cases zero b (x ∷ ts) h = inl h
push_cases (suc l) b (x ∷ ts) h = push_cases l b ts h

-- The thread `k` goes on, for the user `n`; no other thread has that user.
module _ (s t : Server) (ts : List Thread) (k : ℕ) (old th : Thread) (n : Bytes)
    (safe : IsSafe s ts) (at : get_elem? ts k ≡ some old) (valid : IsValid t)
    (kept : Kept (λ m. m ≢ n) (λ m. m ≢ n) s.user_list t.user_list)
    (others : (l : ℕ) (b : Thread) → get_elem? ts l ≡ some b → owner b ≡ some n → k ≡ l)
    (own : (m : Bytes) → owner th ≡ some m → (m ≡ n) × Serves t th m) where
  rest_owned :
      (l : ℕ) (b : Thread) (m : Bytes)
      → k ≢ l
      → get_elem? ts l ≡ some b
      → owner b ≡ some m
      → Serves t b m
  rest_owned l b m apart there mine =
      let other : m ≢ n = λ e. apart (others l b there (mine ∙ ap some e)) in
      let (i, u, logged, holds) = safe.owned l b m there mine in
      let (v, found, at_v, status, out) = kept m i u logged.located.found logged.located.at in
      (
        i,
        v,
        record {
          located = record { found = found; at = at_v };
          present = status other ∙ logged.present;
        },
        Holds-out b i u v (out other) holds,
      )

  advance_owned :
      (l : ℕ) (b : Thread) (m : Bytes)
      → get_elem? (put k th ts) l ≡ some b
      → owner b ≡ some m
      → Serves t b m
  advance_owned l b m there mine = elim (put_cases k l th b ts old at there) [
    | inl (e, same) ↦
        subst (λ z. Serves t z m) same (own m (subst (λ z. owner z ≡ some m) (sym same) mine)).1
    | inr (apart, was) ↦ rest_owned l b m apart was mine
  ]

  -- The user of a thread that stays put is not `n`.
  foreign :
      (l : ℕ) (b : Thread) (m : Bytes)
      → k ≢ l
      → get_elem? ts l ≡ some b
      → owner b ≡ some m
      → owner th ≡ some m
      → ⊥
  foreign l b m apart there mine hers = apart (others l b there (mine ∙ ap some (own m hers).0))

  advance_single :
      (l j : ℕ) (a b : Thread) (m : Bytes)
      → get_elem? (put k th ts) l ≡ some a
      → get_elem? (put k th ts) j ≡ some b
      → owner a ≡ some m
      → owner b ≡ some m
      → l ≡ j
  advance_single l j a b m at_l at_j own_a own_b = elim (put_cases k l th a ts old at at_l) [
    | inl (e, same) ↦ elim (put_cases k j th b ts old at at_j) [
      | inl (e', same') ↦ sym e ∙ e'
      | inr (apart, was) ↦
          absurd (foreign j b m apart was own_b (subst (λ z. owner z ≡ some m) (sym same) own_a))
    ]
    | inr (apart, was) ↦ elim (put_cases k j th b ts old at at_j) [
      | inl (e', same') ↦
          absurd (foreign l a m apart was own_a (subst (λ z. owner z ≡ some m) (sym same') own_b))
      | inr (apart', was') ↦ safe.single l j a b m was was' own_a own_b
    ]
  ]

  pub advance : IsSafe t (put k th ts)
  advance = record { valid = valid; owned = advance_owned; single = advance_single }
