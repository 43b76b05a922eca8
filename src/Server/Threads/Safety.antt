-- ===== src/Server/Threads/Safety.antt =====
-- The threads of the server in any order.
use ece.Base.{
  ℕ, ◌≡◌, refl, ◌∙◌, sym, subst, inl, inr, Bool, List, [], ◌∷◌, ◌++◌, Option, some, arith, Bytes,
  get_elem?,
}
use mathlib.Core.Option.{some-injective}
use ece.Store.{Server, Outcome, ok}
use ece.Store.Laws.{posted}
use ece.Server.Session.Leave.{log_out}
use ece.Server.Invariant.{IsValid}
use ece.Server.Safety.{with_table}
use ece.Server.Reachable.{Request, Request-IsValid, ok_state}
use ece.Server.Threads.{
  Thread, connected, serving, exiting, closed, owner, put, exit_check, exit_leave, exit_clear, Turn,
  Turns, starts, goes_on, connects, answers, registers, logs_in, requests, leaves, clears,
}
use ece.Server.Threads.Kept.{found_name}
use ece.Server.Threads.Requests.{asks, Request-Quiet}
use ece.Server.Threads.Steps.{
  exit_check-run, exit_clear-run, cleared, cleared-IsValid, exit_leave-HasLeft,
}
use ece.Server.Threads.Owners.{Serves, IsSafe, put_same, push_cases, advance}
use ece.Server.Threads.Entries.{own_entry, mine_only, registers-IsSafe, logs_in-IsSafe}

module _ (s : Server) (ts : List Thread) (safe : IsSafe s ts) where
  connects-IsSafe : IsSafe s (ts ++ connected ∷ [])
  connects-IsSafe = record {
    valid = safe.valid;
    owned = λ k th n at mine. elim (push_cases k th ts at) [
      | inl was ↦ safe.owned k th n was mine
      | inr new ↦ absurd (unowned th n new mine)
    ];
    single = λ k l a b n at_k at_l own_a own_b. elim (push_cases k a ts at_k) [
      | inr new ↦ absurd (unowned a n new own_a)
      | inl was ↦ elim (push_cases l b ts at_l) [
        | inr new ↦ absurd (unowned b n new own_b)
        | inl was' ↦ safe.single k l a b n was was' own_a own_b
      ]
    ];
  }
    where
      unowned : (th : Thread) (n : Bytes) → th ≡ connected → owner th ≡ some n → ⊥
      unowned th n e mine = cc (subst (λ z. owner z ≡ some n) e mine)

  answers-IsSafe : (fd : ℕ) (b : Bytes) → IsSafe (posted fd b s) ts
  answers-IsSafe fd b = record {
    valid = with_table s s.user_list _ safe.valid safe.valid.table refl;
    owned = λ k th n at mine.
        let (i, u, l, h) = safe.owned k th n at mine in
        (
          i,
          u,
          record {
            located = record { found = l.located.found; at = l.located.at };
            present = l.present;
          },
          h,
        );
    single = safe.single;
  }

  requests-IsSafe :
      (t : Server) (k : ℕ) (name : Bytes) (q : Request s t)
      → get_elem? ts k ≡ some (serving name)
      → asks q ≡ some name
      → IsSafe t ts
  requests-IsSafe t k name q at mine =
      let quiet = Request-Quiet name safe.valid q mine in
      let (i, u, l, h) = safe.owned k (serving name) name at refl in
      let (v, found, at_v, status, out) = quiet name i u l.located.found l.located.at in
      subst (λ z. IsSafe t z) (put_same k (serving name) ts at)
        (advance s t ts k (serving name) (serving name) name safe at (Request-IsValid safe.valid q)
          (λ m j w f g. let (x, f', g', st, o) = quiet m j w f g in (x, f', g', λ a. st tt, o))
          (λ j b there own. safe.single k j (serving name) b name at there refl own)
          (λ m e. (
            mine_only name m e,
            subst (λ z. Serves t (serving name) z) (some-injective _ _ e)
                (
                  i,
                  v,
                  record {
                    located = record { found = found; at = at_v };
                    present = status tt ∙ l.present;
                  },
                  tt,
                ),
          )))

  -- The first half of a logout.
  leaves-IsSafe :
      (t : Server) (k : ℕ) (name : Bytes) (i : ℕ) (inside : Bool)
      → get_elem? ts k ≡ some (serving name)
      → exit_check name s ≡ ok (some i, inside) s
      → exit_leave name inside s ≡ ok tt t
      → IsSafe t (put k (exiting name i) ts)
  leaves-IsSafe t k name i inside at check run =
      let (j, u, l, h) = safe.owned k (serving name) name at refl in
      let (same, flag) = outcome (sym check ∙ exit_check-run name s j u l.located) in
      let left =
        exit_leave-HasLeft name s t j u safe.valid l
          (subst (λ z. exit_leave name z s ≡ ok tt t) flag run) in
      advance s t ts k (serving name) (exiting name i) name safe at left.valid
        (λ m p w f g. let (x, f', g', st, o) = left.quiet m p w f g in (x, f', g', λ a. st tt, o))
        (λ p b there own. safe.single k p (serving name) b name at there refl own)
        (λ m mine. (
          mine_only name m mine,
          subst (λ z. Serves t (exiting name i) z) (some-injective _ _ mine)
              (j, left.entry, left.still, (same, left.outside)),
        ))
    where
      outcome :
          {p q : ℕ} {a b : Bool} {x y : Server}
          → ◌≡◌ {A = Outcome (Option ℕ × Bool)} (ok (some p, a) x) (ok (some q, b) y)
          → (p ≡ q) × (a ≡ b)
      outcome e = ground arith

  -- The second half.
  clears-IsSafe :
      (t : Server) (k : ℕ) (name : Bytes) (i : ℕ)
      → get_elem? ts k ≡ some (exiting name i)
      → exit_clear (some i) s ≡ ok tt t
      → IsSafe t (put k closed ts)
  clears-IsSafe t k name i at h =
      let (j, u, l, h') = safe.owned k (exiting name i) name at refl in
      let (same, out) = h' in
      let there : get_elem? s.user_list i ≡ some u =
        subst (λ z. get_elem? s.user_list z ≡ some u) (sym same) l.located.at in
      let named = found_name name s.user_list j u l.located.found l.located.at in
      let e : t ≡ cleared i s = ok_state h (exit_clear-run i s safe.valid.ready.user_free) in
      subst (λ z. IsSafe z (put k closed ts)) (sym e)
        (advance s (cleared i s) ts k (exiting name i) closed name safe at
          (cleared-IsValid i s u safe.valid there out)
          (own_entry name log_out s.user_list i u (λ z. refl) there named)
          (λ p b stands own. safe.single k p (exiting name i) b name at stands refl own)
          (λ m mine. absurd (cc)))

Turn-IsSafe : {s t : Server} {ts us : List Thread} → IsSafe s ts → Turn s ts t us → IsSafe t us
Turn-IsSafe {s} {t} {ts} safe connects = connects-IsSafe s ts safe
Turn-IsSafe {s} {t} {ts} safe (answers fd b) = answers-IsSafe s ts safe fd b
Turn-IsSafe {s} {t} {ts} safe
      (registers k peer name word fd address port at n fits from short room h) =
    registers-IsSafe s ts safe t k peer name word fd address port at n fits from short room h
Turn-IsSafe {s} {t} {ts} safe (logs_in k peer name word fd address port at ok' from short h) =
    logs_in-IsSafe s ts safe t k peer name word fd address port at ok' from short h
Turn-IsSafe {s} {t} {ts} safe (requests k name q at mine) =
    requests-IsSafe s ts safe t k name q at mine
Turn-IsSafe {s} {t} {ts} safe (leaves k name i inside at check h) =
    leaves-IsSafe s ts safe t k name i inside at check h
Turn-IsSafe {s} {t} {ts} safe (clears k name i at h) = clears-IsSafe s ts safe t k name i at h

-- Take the threads of a server in any order, from a valid table and with no connection: one turn is a
-- new connection, a registration, a login that verify_login allows with the user_login that follows, a
-- request of a thread's user (of those that Request lists), an answer, the part of
-- server_side_user_exit up to the leaving of the session, or the part behind it. Then the table is
-- valid after every turn, the user of every thread is in the table and online, no two threads have the
-- same user, and the pointer that a thread holds between the two parts is still that of its user, who
-- is in no session.
pub Turns-IsSafe : {s t : Server} {ts : List Thread} → IsValid s → Turns s t ts → IsSafe t ts
Turns-IsSafe v starts = record {
  valid = v;
  owned = λ k th n at mine. absurd (cc);
  single = λ k l a b n at_k at_l own_a own_b. absurd (cc);
}
Turns-IsSafe v (goes_on r q) = Turn-IsSafe (Turns-IsSafe v r) q
