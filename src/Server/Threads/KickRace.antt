-- ===== src/Server/Threads/KickRace.antt =====
-- A kick between two steps of another thread of server.c.
use ece.Base.{ℕ, ◌≡◌, refl, ◌∙◌, ap, ◌≢◌, some, none, true, arith, Bytes, modify, ◌==◌}
use ece.Store.{User, Server, ok, online}
use ece.Store.Laws.{locked}
use ece.Database.Laws.{All_at, find_user-names, names-modify, get_elem?-modify_self}
use ece.Database.Run.{Located, Ready}
use ece.Server.Session.{server_side_session_leave}
use ece.Server.Session.Leave.{server_side_session_leave_outside}
use ece.Server.Admin.{refusal, server_side_kick_user}
use ece.Server.Admin.Run.{expel, kick_result, kick_allowed}
use ece.Server.AdminSafety.{refusal-none, target-IsText, session-IsText, Located-target}
use ece.Server.Invariant.{IsUser, IsValid}
use ece.Server.Safety.{LoggedIn, this_name}
use ece.Server.Deadlock.{IsStuck, held-IsStuck}
use ece.Server.Threads.{exit_check, exit_leave}
use ece.Server.Threads.Steps.{exit_check-run}

module _ (sender target : Bytes) (s : Server) (j : ℕ) (v : User) (w : IsValid s)
    (l : LoggedIn sender s j v) (others : sender ≢ target) (i : ℕ) (t : User)
    (k : Located target s i t) (allowed : refusal t v ≡ none) where
  kicked : Server
  kicked = kick_result sender s i t v

  kicked-Located : Located target kicked i (expel t)
  unfolding kicked
  kicked-Located = record {
    found =
        find_user-names target (modify s.user_list i expel) s.user_list
          (names-modify expel s.user_list i (λ u. refl))
        ∙ k.found;
    at = get_elem?-modify_self expel s.user_list i k.at;
  }

  kicked-Ready : Ready kicked
  unfolding kicked
  kicked-Ready = record { rw_free = w.ready.rw_free; user_free = w.ready.user_free }

  inside : (t.in_session == online) ≡ true
  inside =
      let (present, here, same, plain) = refusal-none t v allowed in
      ground (arith, (All_at IsUser s.user_list i w.table.users k.at).place, here)

  -- At a valid state, the thread of a user in a session reads in server_side_user_exit that the user is
  -- in it; then a kick of that user, which no test refuses, is carried out by another thread; then the
  -- first thread leaves the session, as its test said, or serves a LEAVE_SESS of the kicked user
  -- instead. Both return, and leave a state where every login, registration, join, create, leave, text,
  -- kick and promotion waits for ever for user_list_mutex.
  pub kick_between-IsStuck :
      (after_kick stuck : Server) × (exit_check target s ≡ ok (some i, true) s)
      × (server_side_kick_user sender target s ≡ ok tt after_kick)
      × (exit_leave target true after_kick ≡ ok tt stuck)
      × (server_side_session_leave target after_kick ≡ ok tt stuck)
      × IsStuck stuck
  unfolding exit_leave kicked
  kick_between-IsStuck =
      let apart : i ≢ j = (Located-target sender target s j v w l others i k.found).2 in
      let leave =
        server_side_session_leave_outside target kicked i (expel t) kicked-Ready kicked-Located
          refl in
      (
        kicked,
        locked kicked,
        exit_check-run target s i t k ∙ ap (λ b. ok (some i, b) s) inside,
        kick_allowed sender target s j v w.ready l.located (this_name sender s j v w l) i t k apart
            allowed (session-IsText sender target s j v w l others)
            (target-IsText sender target s j v w l others i t k apart allowed),
        leave,
        leave,
        held-IsStuck (locked kicked) refl,
      )
