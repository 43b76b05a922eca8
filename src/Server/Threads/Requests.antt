-- ===== src/Server/Threads/Requests.antt =====
-- What a request of one user leaves alone: everybody's name, place and status, and who is in no session
-- stays outside, but for who asks.
use ece.Base.{
  ℕ, ◌≡◌, refl, ◌∙◌, sym, subst, ◌≢◌, inl, inr, Bool-cases, Option-cases, Option, some, none, arith,
  Bytes, modify, List, map, ◌==◌, get_elem?,
}
use mathlib.Core.Option.{some-injective}
use ece.Store.{User, Server, Outcome, ok, offline}
use ece.Database.{find_user, count_in_session, leave_session, promote_in_session}
use ece.Server.Session.Join.{join_refusal, join_result, enter, server_side_session_join-run}
use ece.Server.Session.Create.{create_result, found_session, server_side_session_create-run}
use ece.Server.Session.Leave.{left_users, server_side_session_leave-run}
use ece.Server.Session.Relay.{handle_message-run}
use ece.Server.Admin.{refusal, server_side_kick_user, server_side_promote_user}
use ece.Server.Admin.Run.{
  expel, make_admin, make_user, kick_missing, kick_refused, kick_allowed, promote_missing,
  promote_refused, promote_allowed,
}
use ece.Server.AdminSafety.{Located-target, target-IsText, session-IsText}
use ece.Server.Invariant.{IsValid}
use ece.Server.Safety.{LoggedIn, this-IsUser, this_name, outside_false}
use ece.Server.Reachable.{
  Request, registers, logs_in, joins, creates, leaves, exits, kicks, promotes, writes, ok_state,
}
use ece.Server.Threads.Kept.{Kept, found_name, Kept-refl, Kept-trans, Kept-modify, Kept-map}

-- Whose request it is, for a thread that has a user and keeps it.
abbrev pub asks : {s t : Server} → Request s t → Option Bytes
asks (registers peer name word fd address port code n w from fits room h) = none
asks (logs_in peer name fd address port i u l from fits h) = none
asks (exits name i u l h) = none
asks (joins name id i u l k h) = some name
asks (creates name id i u l k h) = some name
asks (leaves name i u l k h) = some name
asks (kicks sender target i u l k h) = some sender
asks (promotes sender target i u l k boss h) = some sender
asks (writes k name d i u small n l h) = some name

abbrev pub Quiet : Bytes → List User → List User → Type 0
Quiet name = Kept (λ m. Unit {0}) (λ m. m ≢ name)

after_run :
    (name : Bytes) (s : Server) {t w : Server} {o : Outcome (Unit {0})}
    → o ≡ ok tt t
    → o ≡ ok tt w
    → Quiet name s.user_list w.user_list
    → Quiet name s.user_list t.user_list
after_run name s h k q = subst (λ x. Quiet name s.user_list x.user_list) (ok_state k h) q

calm : (name : Bytes) (us : List User) → Quiet name us us
calm name us = Kept-refl _ _ us

-- A change of the user who asks.
own_change :
    (name : Bytes) (f : User → User) (us : List User) (i : ℕ) (u : User)
    → ((v : User) → (f v).username ≡ v.username)
    → ((v : User) → (f v).status ≡ v.status)
    → find_user name us ≡ some i
    → get_elem? us i ≡ some u
    → Quiet name us (modify us i f)
own_change name f us i u same status found at =
    let named = found_name name us i u found at in
    Kept-modify _ _ f us i same λ v at_v. (
      λ a. status v,
      λ b out.
          absurd (b (subst (λ z. z.username ≡ name) (some-injective _ _ (sym at ∙ at_v)) named)),
    )

-- A change of anybody that puts nobody into a session.
other_change :
    (name : Bytes) (f : User → User) (us : List User) (i : ℕ)
    → ((v : User) → (f v).username ≡ v.username)
    → ((v : User) → (f v).status ≡ v.status)
    → ((v : User) → v.in_session ≡ offline → (f v).in_session ≡ offline)
    → Quiet name us (modify us i f)
other_change name f us i same status out =
    Kept-modify _ _ f us i same λ v at. (λ a. status v, λ b. out v)

promote_in_session-same :
    (id : Bytes) (v : User)
    → ((promote_in_session id v).username ≡ v.username)
      × ((promote_in_session id v).status ≡ v.status)
      × ((promote_in_session id v).in_session ≡ v.in_session)
unfolding promote_in_session
promote_in_session-same id v = ground arith

pub left_users-Quiet :
    (name id : Bytes) (us : List User) (i : ℕ) → Quiet name us (left_users id i us)
unfolding left_users
left_users-Quiet name id us i =
    let rest = modify us i leave_session in
    let first = other_change name leave_session us i (λ v. refl) (λ v. refl) (λ v h. refl) in
    elim (Bool-cases (count_in_session id rest == 1)) [
      | inl e ↦
          rw (e, left_users)
            (Kept-trans _ _ us rest (map (promote_in_session id) rest) first (
              Kept-map _ _ (promote_in_session id) rest (λ v. (promote_in_session-same id v).0)
                (λ v. (promote_in_session-same id v).1) (λ v. (promote_in_session-same id v).2)))
      | inr e ↦ rw (e, left_users) first
    ]

module _ (name : Bytes) (s : Server) (i : ℕ) (u : User) (l : LoggedIn name s i u) where
  join_result-Quiet : (id : Bytes) → Quiet name s.user_list (join_result name id s i u).user_list
  unfolding join_result
  join_result-Quiet id = elim (Option-cases (join_refusal (count_in_session id s.user_list) u)) [
    | inl e ↦
        rw (e, join_result)
          (own_change name (enter id) s.user_list i u (λ v. refl) (λ v. refl) l.located.found
            l.located.at)
    | inr (x, e) ↦ rw (e, join_result) (calm name s.user_list)
  ]

  create_result-Quiet :
      (id : Bytes) → Quiet name s.user_list (create_result name id s i u).user_list
  unfolding create_result
  create_result-Quiet id = elim (Bool-cases (count_in_session id s.user_list == 0)) [
    | inl e ↦
        rw (e, create_result)
          (own_change name (found_session id) s.user_list i u (λ v. refl) (λ v. refl)
            l.located.found l.located.at)
    | inr e ↦ rw (e, create_result) (calm name s.user_list)
  ]

module _ (sender target : Bytes) (s : Server) (j : ℕ) (v : User) (w : IsValid s)
    (l : LoggedIn sender s j v) (others : sender ≢ target) where
  kick-Quiet :
      (t : Server)
      → server_side_kick_user sender target s ≡ ok tt t
      → Quiet sender s.user_list t.user_list
  kick-Quiet t h =
      let n = this_name sender s j v w l in
      elim (Option-cases (find_user target s.user_list)) [
        | inl e ↦
            after_run sender s h (kick_missing sender target s j v w.ready l.located n e)
              (calm sender s.user_list)
        | inr (i, e) ↦
            let (x, k, apart) = Located-target sender target s j v w l others i e in
            elim (Option-cases (refusal x v)) [
              | inl a ↦
                  after_run sender s h
                    (kick_allowed sender target s j v w.ready l.located n i x k apart a
                      (session-IsText sender target s j v w l others)
                      (target-IsText sender target s j v w l others i x k apart a))
                    (other_change sender expel s.user_list i (λ z. refl) (λ z. refl) (λ z o. refl))
              | inr (y, a) ↦
                  after_run sender s h
                    (kick_refused sender target s j v w.ready l.located n i x k y a)
                    (calm sender s.user_list)
            ]
      ]

  promote-Quiet :
      (t : Server)
      → server_side_promote_user sender target s ≡ ok tt t
      → Quiet sender s.user_list t.user_list
  promote-Quiet t h =
      let n = this_name sender s j v w l in
      elim (Option-cases (find_user target s.user_list)) [
        | inl e ↦
            after_run sender s h (promote_missing sender target s j v w.ready l.located n e)
              (calm sender s.user_list)
        | inr (i, e) ↦
            let (x, k, apart) = Located-target sender target s j v w l others i e in
            elim (Option-cases (refusal x v)) [
              | inl a ↦
                  let mid = modify s.user_list i make_admin in
                  after_run sender s h
                    (promote_allowed sender target s j v w.ready l.located n i x k apart a
                      (session-IsText sender target s j v w l others)
                      (target-IsText sender target s j v w l others i x k apart a))
                    (Kept-trans _ _ s.user_list mid (modify mid j make_user)
                      (other_change sender make_admin s.user_list i (λ z. refl) (λ z. refl)
                        (λ z o. o))
                      (other_change sender make_user mid j (λ z. refl) (λ z. refl) (λ z o. o)))
              | inr (y, a) ↦
                  after_run sender s h
                    (promote_refused sender target s j v w.ready l.located n i x k y a)
                    (calm sender s.user_list)
            ]
      ]

-- A request of `name` keeps everybody's name, place and status, and brings nobody else into a session.
pub Request-Quiet :
    {s t : Server} (name : Bytes)
    → IsValid s
    → (q : Request s t) → asks q ≡ some name
    → Quiet name s.user_list t.user_list
Request-Quiet name v (registers peer n word fd address port code k w from fits room h) e =
    absurd (cc)
Request-Quiet name v (logs_in peer n fd address port i u l from fits h) e = absurd (cc)
Request-Quiet name v (exits n i u l h) e = absurd (cc)
Request-Quiet {s} {t} name v (joins n id i u l k h) e =
    subst (λ z. Quiet z s.user_list t.user_list) (some-injective _ _ e)
      (after_run n s h
        (server_side_session_join-run n id s i u v.ready l.located (this_name n s i u v l) k.text
          k.fits)
        (join_result-Quiet n s i u l id))
Request-Quiet {s} {t} name v (creates n id i u l k h) e =
    subst (λ z. Quiet z s.user_list t.user_list) (some-injective _ _ e)
      (after_run n s h
        (server_side_session_create-run n id s i u v.ready l.located (this_name n s i u v l) k.text
          k.fits)
        (create_result-Quiet n s i u l id))
Request-Quiet {s} {t} name v (leaves n i u l k h) e =
    subst (λ z. Quiet z s.user_list t.user_list) (some-injective _ _ e)
      (after_run n s h
        (server_side_session_leave-run n s i u v.ready l.located (outside_false n s i u v l k)
          (this-IsUser n s i u v l).id_fits k)
        (left_users-Quiet n u.session_id s.user_list i))
Request-Quiet {s} {t} name v (kicks sender target i u l k h) e =
    subst (λ z. Quiet z s.user_list t.user_list) (some-injective _ _ e)
      (kick-Quiet sender target s i u v l k t h)
Request-Quiet {s} {t} name v (promotes sender target i u l k boss h) e =
    subst (λ z. Quiet z s.user_list t.user_list) (some-injective _ _ e)
      (promote-Quiet sender target s i u v l k t h)
Request-Quiet {s} {t} name v (writes k n d i u small nn l h) e =
    subst (λ z. Quiet z s.user_list t.user_list) (some-injective _ _ e)
      (after_run n s h (handle_message-run k n d small nn s i u v.ready l) (calm n s.user_list))
