-- ===== src/Server/Threads/Rounds.antt =====
-- A round of connection_handler as turns of its thread.
use ece.Base.{
  ℕ, zero, suc, ◌≡◌, refl, ap, ◌∙◌, sym, subst, Bool-cases, inl, inr, ◌==◌, List, [], ◌∷◌, some,
  arith, Bytes, get_elem?,
}
use ece.Message.{frame}
use ece.Store.{User, Server, ok, online}
use ece.Store.Laws.{bind_ok}
use ece.Server.Login.{Peer}
use ece.Server.Session.{server_side_user_exit}
use ece.Server.Handler.{Connection, SendResult, received, connection_handler}
use ece.Server.Invariant.{IsValid}
use ece.Server.Safety.{LoggedIn, server_side_session_leave-IsValid}
use ece.Server.Reachable.{Request, ok_state}
use ece.Server.Threads.Requests.{asks}
use ece.Server.Reachable
use ece.Server.Wire.{
  Ask, joins, creates, kicks, promotes, leaves, exits, type_of, data_of, next_of, IsAllowed,
  service,
}
use ece.Server.Wire.Rounds.{served_round}
use ece.Server.Threads.{
  Thread, serving, exiting, closed, put, exit_check, exit_leave, exit_clear, Turns, goes_on,
}
use ece.Server.Threads
use ece.Server.Threads.Steps.{
  exit_check-run, exit_clear-run, exit_leave-HasLeft, server_side_user_exit-parts,
}
use ece.Server.Threads.Owners.{IsSafe, put_same}
use ece.Server.Threads.Safety.{Turns-IsSafe}

-- Where the thread stands behind the round.
abbrev pub after_round : Bytes → Ask → Thread
after_round name (joins id) = serving name
after_round name (creates id) = serving name
after_round name (kicks target) = serving name
after_round name (promotes target) = serving name
after_round name leaves = serving name
after_round name exits = closed

put_there :
    (k : ℕ) (th : Thread) (ts : List Thread) {old : Thread}
    → get_elem? ts k ≡ some old
    → get_elem? (put k th ts) k ≡ some th
put_there k th [] h = absurd (cc)
put_there zero th (t ∷ ts) h = refl
put_there (suc k) th (t ∷ ts) h = put_there k th ts h

put-put : (k : ℕ) (th old : Thread) (ts : List Thread) → put k th (put k old ts) ≡ put k th ts
put-put k th old [] = refl
put-put zero th old (t ∷ ts) = refl
put-put (suc k) th old (t ∷ ts) = ap (λ r. t ∷ r) (put-put k th old ts)

module _ (name : Bytes) (s : Server) (i : ℕ) (u : User) (v : IsValid s)
    (l : LoggedIn name s i u) where
  exit_leave-run : (t : Server) × (exit_leave name (u.in_session == online) s ≡ ok tt t)
  unfolding exit_leave
  exit_leave-run = elim (Bool-cases (u.in_session == online)) [
    | inl e ↦
        let (t, run, w) = server_side_session_leave-IsValid name s i u v l (ground arith) in
        (t, rw (e, exit_leave) run)
    | inr e ↦ (s, rw (e, exit_leave) refl)
  ]

  -- server_side_user_exit, with the state between its parts.
  exit_halves :
      {t : Server}
      → server_side_user_exit name s ≡ ok tt t
      → (w : Server) × (exit_leave name (u.in_session == online) s ≡ ok tt w)
        × (exit_clear (some i) w ≡ ok tt t)
  exit_halves run =
      let (w, left) = exit_leave-run in
      let clear =
        exit_clear-run i w (exit_leave-HasLeft name s w i u v l left).valid.ready.user_free in
      let whole = sym (server_side_user_exit-parts name s) ∙ run in
      (
        w,
        left,
        subst (λ z. exit_clear (some i) w ≡ ok tt z)
            (ok_state (bind_ok _ _ (exit_check-run name s i u l.located) (bind_ok _ _ left clear))
              whole)
            clear,
      )

  module _ {start : Server} {ts : List Thread} (turns : Turns start s ts) (k : ℕ)
      (at : get_elem? ts k ≡ some (serving name)) where
    -- The thread keeps its user.
    request-Turns :
        {t : Server} (q : Request s t)
        → asks q ≡ some name
        → Turns start t (put k (serving name) ts)
    request-Turns {t} q mine =
        subst (λ us. Turns start t us) (sym (put_same k (serving name) ts at))
          (goes_on turns (Threads.requests k name q at mine))

    service-Turns :
        (a : Ask) {t : Server}
        → IsAllowed name u a
        → service name a s ≡ ok tt t
        → Turns start t (put k (after_round name a) ts)
    service-Turns (joins id) h run = request-Turns (Reachable.joins name id i u l h run) refl
    service-Turns (creates id) h run = request-Turns (Reachable.creates name id i u l h run) refl
    service-Turns (kicks target) h run =
        request-Turns (Reachable.kicks name target i u l h.other run) refl
    service-Turns (promotes target) h run =
        request-Turns (Reachable.promotes name target i u l h.0.other h.1 run) refl
    service-Turns leaves h run = request-Turns (Reachable.leaves name i u l h run) refl
    service-Turns exits {t} h run =
        let (w, left, clear) = exit_halves run in
        subst (λ us. Turns start t us) (put-put k closed (exiting name i) ts)
          (goes_on
            (goes_on turns (
              Threads.leaves k name i (u.in_session == online) at
                (exit_check-run name s i u l.located) left))
            (Threads.clears k name i (put_there k (exiting name i) ts at) clear))

module _ {start s : Server} {ts : List Thread} (v : IsValid start) (turns : Turns start s ts)
    (k : ℕ) (name : Bytes) (at : get_elem? ts k ≡ some (serving name)) where
  -- Let the threads of a server have taken turns from a valid table, and one of them serve a user. If
  -- its connection, which holds the user's name, receives a request that the client of that user frames,
  -- and that IsAllowed allows at the user's entry, connection_handler returns, and goes on with the
  -- connection as it was, or ends after an exit. The state that it leaves is again one that the
  -- threads reach by turns, where this thread serves the user as before, or is closed after an exit,
  -- and the others stand where they stood; so the table and the threads are safe.
  pub round-Turns :
      (peer : ℕ → Peer) (c : Connection) (a : Ask) (result : SendResult)
      → c.source ≡ some name
      → ((i : ℕ) (u : User) → LoggedIn name s i u → IsAllowed name u a)
      → (b : Bytes) × (t : Server) × (frame (type_of a) name (data_of a) ≡ some b)
        × (connection_handler peer c (received b result) s ≡ ok (next_of a c) t)
        × Turns start t (put k (after_round name a) ts)
        × IsSafe t (put k (after_round name a) ts)
  round-Turns peer c a result own allowed =
      let safe = Turns-IsSafe v turns in
      let (i, u, l, held) = safe.owned k (serving name) name at refl in
      let h = allowed i u l in
      let (b, t, framed, run, served, valid) =
        served_round name s i u safe.valid l peer c own a result h in
      let more = service-Turns name s i u safe.valid l turns k at a h served in
      (b, t, framed, run, more, Turns-IsSafe v more)
