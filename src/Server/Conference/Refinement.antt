-- ===== src/Server/Conference/Refinement.antt =====
-- Every request is a move of the conference.
use ece.Base.{
  ℕ, ◌≡◌, refl, ◌∙◌, sym, subst, ◌≢◌, inl, inr, Bool-cases, Option-cases, arith, Bytes, length, leb,
  List, str_eq_refl, modify,
}
use ece.Store.{User, Server, Outcome, ok, admin, not_in_session}
use ece.Database.{find_user, max_user_count}
use ece.Server.Session.Join.{server_side_session_join-run}
use ece.Server.Session.Create.{server_side_session_create-run}
use ece.Server.Session.Leave.{server_side_session_leave-run}
use ece.Server.Session.Relay.{handle_message-run}
use ece.Server.Admin.{refusal, server_side_kick_user, server_side_promote_user}
use ece.Server.Admin.Run.{
  kick_missing, kick_refused, kick_allowed, promote_missing, promote_refused, promote_allowed,
}
use ece.Server.AdminSafety.{Located-target, target-IsText, session-IsText}
use ece.Server.Login.Arrival.{arrive, note_address, user_login-run}
use ece.Server.Login.Registration.{
  new_user, user_registration_full, user_registration_taken, user_registration_new,
}
use ece.Server.Invariant.{IsValid}
use ece.Server.Safety.{
  LoggedIn, this-IsUser, this_name, outside_false, server_side_user_exit-valid_run,
}
use ece.Server.Reachable.{
  Request, registers, logs_in, joins, creates, leaves, exits, kicks, promotes, writes, ok_state,
  Reachable, Reachable-IsValid,
}
use ece.Server.Conference.{
  Deed, quiet, entry, founding, expulsion, handover, leaving, Move, unseen, not_expelled,
  not_handed, view,
}
use ece.Server.Conference.View.{view-modify_same, view-append}
use ece.Server.Conference.Steps.{
  Moves, join-Moves, create-Moves, leave-Moves, exit-Moves, kick-Moves, promote-Moves,
}

-- A run has one result.
after_run :
    {A : Type 0} {d : Deed} (s : Server) {a b : A} {t w : Server} {o : Outcome A}
    → o ≡ ok a t
    → o ≡ ok b w
    → Moves d s.user_list w.user_list
    → Moves d s.user_list t.user_list
after_run {d = d} s h k m = subst (λ x. Moves d s.user_list x.user_list) (ok_state k h) m

-- A change of the table that does not show.
unchanged : (us vs : List User) → view vs ≡ view us → Moves quiet us vs
unchanged us vs e = subst (Move quiet (view us)) (sym e) unseen

module _ (sender target : Bytes) (s : Server) (j : ℕ) (v : User) (w : IsValid s)
    (l : LoggedIn sender s j v) (others : sender ≢ target) where
  kick_step :
      (t : Server)
      → server_side_kick_user sender target s ≡ ok tt t
      → Moves (expulsion sender target) s.user_list t.user_list
  kick_step t h = elim (Option-cases (find_user target s.user_list)) [
    | inl e ↦
        after_run s h
          (kick_missing sender target s j v w.ready l.located (this_name sender s j v w l) e)
          (not_expelled sender target)
    | inr (i, e) ↦
        let (x, k, apart) = Located-target sender target s j v w l others i e in
        elim (Option-cases (refusal x v)) [
          | inl a ↦
              after_run s h
                (kick_allowed sender target s j v w.ready l.located (this_name sender s j v w l) i x
                  k apart a (session-IsText sender target s j v w l others)
                  (target-IsText sender target s j v w l others i x k apart a))
                (kick-Moves sender target s j v w l i x k apart a)
          | inr (y, a) ↦
              after_run s h
                (kick_refused sender target s j v w.ready l.located (this_name sender s j v w l) i x
                  k y a)
                (not_expelled sender target)
        ]
  ]

  promote_step :
      (t : Server)
      → v.role ≡ admin
      → server_side_promote_user sender target s ≡ ok tt t
      → Moves (handover sender target) s.user_list t.user_list
  promote_step t boss h = elim (Option-cases (find_user target s.user_list)) [
    | inl e ↦
        after_run s h
          (promote_missing sender target s j v w.ready l.located (this_name sender s j v w l) e)
          (not_handed sender target)
    | inr (i, e) ↦
        let (x, k, apart) = Located-target sender target s j v w l others i e in
        elim (Option-cases (refusal x v)) [
          | inl a ↦
              after_run s h
                (promote_allowed sender target s j v w.ready l.located (this_name sender s j v w l)
                  i x k apart a (session-IsText sender target s j v w l others)
                  (target-IsText sender target s j v w l others i x k apart a))
                (promote-Moves sender target s j v w l i x k apart a boss)
          | inr (y, a) ↦
              after_run s h
                (promote_refused sender target s j v w.ready l.located (this_name sender s j v w l)
                  i x k y a)
                (not_handed sender target)
        ]
  ]

-- Who asks for what.
abbrev pub deed_of : {s t : Server} → Request s t → Deed
deed_of (registers peer name word fd address port code n fits from short room h) = quiet
deed_of (logs_in peer name fd address port i u l from fits h) = quiet
deed_of (joins name id i u l k h) = entry name id
deed_of (creates name id i u l k h) = founding name id
deed_of (leaves name i u l k h) = leaving name
deed_of (exits name i u l h) = leaving name
deed_of (kicks sender target i u l k h) = expulsion sender target
deed_of (promotes sender target i u l k boss h) = handover sender target
deed_of (writes k name d i u small n l h) = quiet

-- Take of the table only who sits in which session and who is an admin there. Then a request, in a
-- state that the server reaches from the empty table, or from a database file of at most 16
-- entries (each a name and a password of 1 to 16 bytes without NULs, quotes and bars) whose names
-- are unique and without colons (with session names that fit and are not "Not in session", names,
-- passwords and addresses that fit, room for who registers, leaves from inside a session,
-- promotions by an admin, and nobody who kicks or promotes themselves), does to these seats what
-- Move lets its sender do. A registration, a login and a text do nothing. A join does nothing, or
-- takes a user who is outside into a session that somebody is in, as no admin. A creation makes
-- the user the admin of a session that nobody is in, and does nothing only where somebody is in
-- it. A leave or an exit puts a user who sits in a session outside; if then exactly one user is
-- left in the session, that one is its admin; who is outside stays there. A kick does nothing, or
-- puts the target outside, who is no admin and in the session of the sender. A promotion does
-- nothing, or hands the role of the sender, who is the admin, to the target, who is in the same
-- session. Nobody else's seat changes.
pub Request-Move :
    {s t : Server}
    → Reachable s
    → (q : Request s t) → Move (deed_of q) (view s.user_list) (view t.user_list)
Request-Move {s} {t} r (registers peer name word fd address port code n fits from short room h) =
    let v = Reachable-IsValid r in
    elim (Bool-cases (leb max_user_count (length s.user_list))) [
      | inl e ↦
          after_run s h
            (user_registration_full peer name word fd address port s v n fits from short
              (ground arith))
            unseen
      | inr e ↦ elim (Option-cases (find_user name s.user_list)) [
        | inl fresh ↦
            after_run s h
              (user_registration_new peer name word fd address port s v n fits from short
                (ground arith) fresh room)
              (unchanged _ _ (
                view-append s.user_list (new_user name word fd address port)
                  (rw (str_eq_refl not_in_session) refl)))
        | inr (i, found) ↦
            after_run s h
              (user_registration_taken peer name word fd address port s v n fits from short
                (ground arith) i found)
              unseen
      ]
    ]
Request-Move {s} {t} r (logs_in peer name fd address port i u l from fits h) =
    let v = Reachable-IsValid r in
    after_run s h (user_login-run peer name fd address port s i u v l from fits) (
      unchanged _ _ (
        view-modify_same (note_address address port) (modify s.user_list i (arrive fd)) i
          (λ x. refl) (λ x. refl)
        ∙ view-modify_same (arrive fd) s.user_list i (λ x. refl) (λ x. refl)))
Request-Move {s} {t} r (joins name id i u l k h) =
    let v = Reachable-IsValid r in
    after_run s h
      (server_side_session_join-run name id s i u v.ready l.located (this_name name s i u v l)
        k.text k.fits)
      (join-Moves name s i u v l id k)
Request-Move {s} {t} r (creates name id i u l k h) =
    let v = Reachable-IsValid r in
    after_run s h
      (server_side_session_create-run name id s i u v.ready l.located (this_name name s i u v l)
        k.text k.fits)
      (create-Moves name s i u v l id k)
Request-Move {s} {t} r (leaves name i u l k h) =
    let v = Reachable-IsValid r in
    let valid = this-IsUser name s i u v l in
    after_run s h
      (server_side_session_leave-run name s i u v.ready l.located (outside_false name s i u v l k)
        valid.id_fits k)
      (leave-Moves name s i u v l k)
Request-Move {s} {t} r (exits name i u l h) =
    let v = Reachable-IsValid r in
    after_run s h (server_side_user_exit-valid_run name s i u v l) (exit-Moves name s i u v l)
Request-Move {s} {t} r (kicks sender target i u l k h) =
    kick_step sender target s i u (Reachable-IsValid r) l k t h
Request-Move {s} {t} r (promotes sender target i u l k boss h) =
    promote_step sender target s i u (Reachable-IsValid r) l k t boss h
Request-Move {s} {t} r (writes k name d i u small n l h) =
    let v = Reachable-IsValid r in
    after_run s h (handle_message-run k name d small n s i u v.ready l) unseen
