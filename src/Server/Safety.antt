-- ===== src/Server/Safety.antt =====
-- server.c: join, create, leave and logout on the valid states of the table.
use ece.Base.{
  ℕ, zero, suc, [], ◌∷◌, ◌≡◌, refl, ◌∙◌, ap, sym, subst, ◌≢◌, ◌<◌, inl, inr, false, some,
  Option-cases, arith, Bytes, length, modify, get_elem?, length-modify, ◌==◌, Bool-cases, str_eq,
  str_eq_iff, map, List,
}
use mathlib.Core.Option.{some-injective}
use ece.Message.RoundTrip.{IsName}
use ece.Store.{User, Server, ok, online, offline, not_in_session, max_session_length}
use ece.Store.Laws.{IsText}
use ece.Database.{count_in_session, leave_session, promote_in_session}
use ece.Database.Laws.{find_user_sound, All_at, get_elem?-modify_self}
use ece.Database.Run.{Located}
use ece.Server.Session.{
  server_side_session_join, server_side_session_create, server_side_session_leave,
  server_side_user_exit,
}
use ece.Server.Session.Join.{join_refusal, join_result, enter, server_side_session_join-run}
use ece.Server.Session.Create.{create_result, found_session, server_side_session_create-run}
use ece.Server.Session.Leave.{
  left_users, leave_result, exit_result, log_out, server_side_session_leave-run,
  server_side_user_exit-run, server_side_user_exit_outside,
}
use ece.Server.Invariant.{IsUser, IsTable, IsValid}
use ece.Server.Invariant.Table.{enter-IsTable, found_session-IsTable, log_out-IsTable}
use ece.Server.Invariant.Roles.{left_users-IsTable}

-- The user of that name is `u`, at `i`, and is online.
pub record LoggedIn (name : Bytes) (s : Server) (i : ℕ) (u : User) : Type 0 where
  pub located : Located name s i u
  pub present : u.status ≡ online

-- A session name that fits the arrays and is not the mark of having no session.
pub record IsSession (id : Bytes) : Type 0 where
  pub text : IsText id
  pub fits : length id < max_session_length
  pub proper : id ≢ not_in_session

length-map {ℓ κ} :
    {A : Type ℓ} {B : Type κ} (f : A → B) (xs : List A) → length (map f xs) ≡ length xs
length-map f [] = refl
length-map f (x ∷ xs) = ap suc (length-map f xs)

length-left_users : (id : Bytes) (i : ℕ) (us : List User) → length (left_users id i us) ≡ length us
unfolding left_users
length-left_users id i us = ground (
  arith,
  length-map (promote_in_session id) (modify us i leave_session),
  length-modify us i leave_session,
)

get_elem?-map {ℓ κ} :
    {A : Type ℓ} {B : Type κ} (f : A → B) (xs : List A) (i : ℕ) {x : A}
    → get_elem? xs i ≡ some x
    → get_elem? (map f xs) i ≡ some (f x)
get_elem?-map f [] i h = absurd (cc)
get_elem?-map f (y ∷ xs) zero h = ap some (ap f (some-injective _ _ h))
get_elem?-map f (y ∷ xs) (suc i) h = get_elem?-map f xs i h

promote_other : (id : Bytes) (u : User) → u.session_id ≢ id → promote_in_session id u ≡ u
unfolding promote_in_session
promote_other id u h = ground (arith, str_eq_iff u.session_id id)

-- A valid state with another table of the same length, and more output.
pub with_table :
    (s : Server) (us : List User) (out : List (ℕ × Bytes))
    → IsValid s
    → IsTable us
    → length us ≡ length s.user_list
    → IsValid (record s { user_list = us; sent = out })
with_table s us out v t same = record {
  ready = record { rw_free = v.ready.rw_free; user_free = v.ready.user_free };
  table = t;
  bounded = rw same v.bounded;
}

module _ (name : Bytes) (s : Server) (i : ℕ) (u : User) (v : IsValid s)
    (l : LoggedIn name s i u) where
  pub this-IsUser : IsUser u
  this-IsUser = All_at IsUser s.user_list i v.table.users l.located.at

  pub this_name : IsName name
  this_name =
      let (w, e, n) = find_user_sound name s.user_list i l.located.found in
      let same : u ≡ w = some-injective _ _ (sym l.located.at ∙ e) in
      subst IsName n (subst (λ z. IsName z.username) same this-IsUser.name)

  join_result-IsValid : (id : Bytes) → IsSession id → IsValid (join_result name id s i u)
  unfolding join_result join_refusal
  join_result-IsValid id h =
      elim (Option-cases (join_refusal (count_in_session id s.user_list) u)) [
        | inl e ↦
            rw (e, join_result)
              (with_table s (modify s.user_list i (enter id)) _ v
                (enter-IsTable s.user_list i u v.table l.located.at id
                  (ground (arith, this-IsUser.place)) l.present h.proper h.text.0 h.fits
                  (ground (arith, v.table.sizes id h.proper)))
                (length-modify s.user_list i (enter id)))
        | inr (x, e) ↦ rw (e, join_result) (with_table s s.user_list _ v v.table refl)
      ]

  -- A request to join a session, from a user who is logged in at a valid state, with a session
  -- name that fits its array and is not "Not in session", returns and leaves a valid state: both
  -- mutexes free, names unique, no session with more than six users or more than one admin.
  pub server_side_session_join-IsValid :
      (id : Bytes)
      → IsSession id
      → (t : Server) × (server_side_session_join name id s ≡ ok tt t) × IsValid t
  server_side_session_join-IsValid id h = (
    join_result name id s i u,
    server_side_session_join-run name id s i u v.ready l.located this_name h.text h.fits,
    join_result-IsValid id h,
  )

  create_result-IsValid : (id : Bytes) → IsSession id → IsValid (create_result name id s i u)
  unfolding create_result
  create_result-IsValid id h = elim (Bool-cases (count_in_session id s.user_list == 0)) [
    | inl e ↦
        rw (e, create_result)
          (with_table s (modify s.user_list i (found_session id)) _ v
            (found_session-IsTable s.user_list i u v.table l.located.at id l.present h.proper
              h.text.0 h.fits (ground arith))
            (length-modify s.user_list i (found_session id)))
    | inr e ↦ rw (e, create_result) (with_table s s.user_list _ v v.table refl)
  ]

  -- A request to create a session, from a user who is logged in at a valid state, with a session
  -- name that fits its array and is not "Not in session", returns and leaves a valid state.
  pub server_side_session_create-IsValid :
      (id : Bytes)
      → IsSession id
      → (t : Server) × (server_side_session_create name id s ≡ ok tt t) × IsValid t
  server_side_session_create-IsValid id h = (
    create_result name id s i u,
    server_side_session_create-run name id s i u v.ready l.located this_name h.text h.fits,
    create_result-IsValid id h,
  )

  module _ (inside : u.in_session ≢ offline) where
    proper : u.session_id ≢ not_in_session
    proper = ground (arith, this-IsUser.place, inside)

    pub outside_false : str_eq u.session_id not_in_session ≡ false
    outside_false = ground (arith, str_eq_iff u.session_id not_in_session, proper)

    pub leave_result-IsValid : IsValid (leave_result s i u)
    leave_result-IsValid =
        with_table s (left_users u.session_id i s.user_list) _ v
          (left_users-IsTable s.user_list i u v.table l.located.at proper)
          (length-left_users u.session_id i s.user_list)

    -- A request to leave, from a user who is logged in and in a session at a valid state, returns
    -- and leaves a valid state.
    pub server_side_session_leave-IsValid :
        (t : Server) × (server_side_session_leave name s ≡ ok tt t) × IsValid t
    server_side_session_leave-IsValid = (
      leave_result s i u,
      server_side_session_leave-run name s i u v.ready l.located outside_false this-IsUser.id_fits
          inside,
      leave_result-IsValid,
    )

    pub at_left : get_elem? (left_users u.session_id i s.user_list) i ≡ some (leave_session u)
    unfolding left_users
    at_left =
        let there = get_elem?-modify_self leave_session s.user_list i l.located.at in
        ground (
          arith,
          there,
          get_elem?-map (promote_in_session u.session_id) (modify s.user_list i leave_session) i
              there,
          promote_other u.session_id (leave_session u) (λ e. proper (sym e)),
        )

  exit_result-IsValid : IsValid (exit_result s i u)
  unfolding exit_result
  exit_result-IsValid = elim (Bool-cases (u.in_session == online)) [
    | inl e ↦
        rw (e, exit_result)
          (let inside : u.in_session ≢ offline = ground arith in
            let w = leave_result-IsValid inside in
            with_table (leave_result s i u)
              (modify (left_users u.session_id i s.user_list) i log_out) _ w
              (log_out-IsTable (left_users u.session_id i s.user_list) i (leave_session u) w.table
                (at_left inside) refl)
              (length-modify (left_users u.session_id i s.user_list) i log_out))
    | inr e ↦
        rw (e, exit_result)
          (with_table s (modify s.user_list i log_out) _ v
            (log_out-IsTable s.user_list i u v.table l.located.at
              (ground (arith, this-IsUser.place)))
            (length-modify s.user_list i log_out))
  ]

  pub server_side_user_exit-valid_run : server_side_user_exit name s ≡ ok tt (exit_result s i u)
  server_side_user_exit-valid_run = elim (Bool-cases (u.in_session == offline)) [
    | inl e ↦ server_side_user_exit_outside name s i u v.ready l.located (ground arith)
    | inr e ↦
        server_side_user_exit-run name s i u v.ready l.located (outside_false (ground arith))
          this-IsUser.id_fits
  ]

  -- Logging out, of a user who is logged in at a valid state, returns and leaves a valid state, in
  -- or out of a session.
  pub server_side_user_exit-IsValid :
      (t : Server) × (server_side_user_exit name s ≡ ok tt t) × IsValid t
  server_side_user_exit-IsValid =
      (exit_result s i u, server_side_user_exit-valid_run, exit_result-IsValid)
