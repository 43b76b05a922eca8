-- ===== src/Server/Invariant/Roles.antt =====
-- The changes of roles: the last user of a session becomes its admin, and an admin hands over.
use ece.Base.{
  ℕ, ◌≡◌, refl, ◌∙◌, sym, subst, ◌≢◌, inl, inr, List, [], ◌∷◌, map, some, arith, Bytes, All, modify,
  get_elem?, str_eq, str_eq_iff, ◌==◌, Bool-cases,
}
use mathlib.Core.Option.{some-injective}
use ece.Store.{User, offline, user, admin, not_in_session}
use ece.Database.{count_in_session, leave_session, promote_in_session}
use ece.Database.Laws.{
  names, names-modify, All-modify, All_at, count_in_session-modify, get_elem?-modify_ne,
}
use ece.Server.Session.Leave.{left_users}
use ece.Server.Admin.Run.{make_admin, make_user}
use ece.Server.Invariant.{IsUser, IsTable, count_admins}
use ece.Server.Invariant.Table.{count_admins-modify, count_admins-le, leave_session-IsTable}

promoted-IsUser : (w : User) → IsUser w → w.in_session ≢ offline → IsUser (make_admin w)
promoted-IsUser w h inside = record {
  name = h.name;
  word = h.word;
  id_text = h.id_text;
  id_fits = h.id_fits;
  place = ground (arith, h.place, inside);
  rank = inr refl;
  presence = h.presence;
}

demoted-IsUser : (w : User) → IsUser w → IsUser (make_user w)
demoted-IsUser w h = record {
  name = h.name;
  word = h.word;
  id_text = h.id_text;
  id_fits = h.id_fits;
  place = ground (arith, h.place);
  rank = inl refl;
  presence = h.presence;
}

module _ (id : Bytes) (ne : id ≢ not_in_session) where
  promote_in_session-IsUser : (u : User) → IsUser u → IsUser (promote_in_session id u)
  unfolding promote_in_session
  promote_in_session-IsUser u w = elim (Bool-cases (str_eq u.session_id id)) [
    | inl h ↦ rw h (elim (Bool-cases (u.role == user)) [
      | inl e ↦ rw e (promoted-IsUser u w (ground (arith, str_eq_iff u.session_id id, w.place)))
      | inr e ↦ rw e w
    ])
    | inr h ↦ rw h w
  ]

  promote_in_session-All :
      (us : List User) → All IsUser us → All IsUser (map (promote_in_session id) us)
  promote_in_session-All [] h = tt
  promote_in_session-All (u ∷ us) h =
      (promote_in_session-IsUser u h.0, promote_in_session-All us h.1)

  names-promote : (us : List User) → names (map (promote_in_session id) us) ≡ names us
  unfolding promote_in_session
  names-promote [] = refl
  names-promote (u ∷ us) = ground (arith, names-promote us)

  pub count_in_session-promote :
      (k : Bytes) (us : List User)
      → count_in_session k (map (promote_in_session id) us) ≡ count_in_session k us
  unfolding count_in_session promote_in_session
  count_in_session-promote k [] = refl
  count_in_session-promote k (u ∷ us) = ground (arith, count_in_session-promote k us)

  count_admins-promote :
      (k : Bytes) (us : List User)
      → k ≢ id
      → count_admins k (map (promote_in_session id) us) ≡ count_admins k us
  unfolding count_admins promote_in_session
  count_admins-promote k [] h = refl
  count_admins-promote k (u ∷ us) h =
      ground
        (arith, count_admins-promote k us, str_eq_iff u.session_id k, str_eq_iff u.session_id id)

  pub promote_in_session-IsTable :
      (us : List User)
      → IsTable us
      → count_in_session id us ≡ 1
      → IsTable (map (promote_in_session id) us)
  promote_in_session-IsTable us t one = record {
    users = promote_in_session-All us t.users;
    distinct = rw (names-promote us) t.distinct;
    sizes = λ k hk. rw (count_in_session-promote k us) (t.sizes k hk);
    admins = λ k hk. elim (Bool-cases (str_eq k id)) [
      | inl e ↦ ground (
        arith,
        str_eq_iff k id,
        count_admins-le id (map (promote_in_session id) us),
        count_in_session-promote id us,
        one,
      )
      | inr e ↦ rw (count_admins-promote k us (ground (arith, str_eq_iff k id))) (t.admins k hk)
    ];
  }

module _ (us : List User) (i : ℕ) (u : User) (t : IsTable us) (at : get_elem? us i ≡ some u) where
  -- Leaving keeps the table, whoever is left.
  pub left_users-IsTable : u.session_id ≢ not_in_session → IsTable (left_users u.session_id i us)
  unfolding left_users
  left_users-IsTable ne =
      elim (Bool-cases (count_in_session u.session_id (modify us i leave_session) == 1)) [
        | inl h ↦ rw h (
            promote_in_session-IsTable u.session_id ne (modify us i leave_session)
              (leave_session-IsTable us i u t at) (ground arith))
        | inr h ↦ rw h (leave_session-IsTable us i u t at)
      ]

  module _ (j : ℕ) (v : User) (at_j : get_elem? us j ≡ some v) (apart : i ≢ j)
      (same : u.session_id ≡ v.session_id) (inside : u.in_session ≢ offline)
      (plain : u.role ≢ admin) (boss : v.role ≡ admin) where
    IsUser-i : IsUser u
    IsUser-i = All_at IsUser us i t.users at

    IsUser-j : IsUser v
    IsUser-j = All_at IsUser us j t.users at_j

    at_after : get_elem? (modify us i make_admin) j ≡ some v
    at_after = get_elem?-modify_ne make_admin us i j apart ∙ at_j

    -- An admin who promotes another user of the session hands the role over.
    pub hand_over-IsTable : IsTable (modify (modify us i make_admin) j make_user)
    hand_over-IsTable = record {
      users =
          All-modify make_user IsUser (modify us i make_admin) j
            (All-modify make_admin IsUser us i t.users (λ w e.
              promoted-IsUser w (subst IsUser (some-injective _ _ (sym at ∙ e)) IsUser-i)
                (subst (λ z. z.in_session ≢ offline) (some-injective _ _ (sym at ∙ e)) inside)))
            (λ w e.
              demoted-IsUser w (subst IsUser (some-injective _ _ (sym at_after ∙ e)) IsUser-j));
      distinct =
          rw
            (
              names-modify make_user (modify us i make_admin) j (λ w. refl),
              names-modify make_admin us i (λ w. refl),
            )
            t.distinct;
      sizes = λ k hk. ground (
        arith,
        t.sizes k hk,
        count_in_session-modify make_admin k us i u at,
        count_in_session-modify make_user k (modify us i make_admin) j v at_after,
      );
      admins = λ k hk. ground (
        arith,
        t.admins k hk,
        count_admins-modify k make_admin us i u at,
        count_admins-modify k make_user (modify us i make_admin) j v at_after,
        same,
        plain,
        boss,
      );
    }
