-- ===== src/Server/Invariant/Table.antt =====
-- How a change of one user moves the counts of a table, and when it keeps `IsTable`.
use ece.Base.{
  ℕ, zero, suc, ◌+◌, ◌≡◌, refl, ◌∙◌, ap, sym, ◌≢◌, ◌≤◌, ◌<◌, inl, inr, List, [], ◌∷◌, some, arith,
  Bytes, NoNul, length, modify, get_elem?, subst, str_eq_iff, if◌then◌else◌,
}
use mathlib.Core.Option.{some-injective}
use ece.Store.{User, online, offline, user, not_in_session, max_session_length}
use ece.Database.{count_in_session, max_session_user, leave_session}
use ece.Database.Laws.{names-modify, All-modify, All_at, count_in_session-modify}
use ece.Server.Session.Join.{enter}
use ece.Server.Session.Create.{found_session}
use ece.Server.Session.Leave.{log_out}
use ece.Server.Admin.Run.{expel}
use ece.Server.Invariant.{IsUser, IsTable, count_admins, is_admin_of}

pub count_admins-modify :
    (id : Bytes) (f : User → User) (us : List User) (i : ℕ) (u : User)
    → get_elem? us i ≡ some u
    → count_admins id (modify us i f) + (if is_admin_of id u then 1 else 0)
      ≡ count_admins id us + (if is_admin_of id (f u) then 1 else 0)
unfolding count_admins
count_admins-modify id f [] i u h = absurd (cc)
count_admins-modify id f (v ∷ us) zero u h = ground arith
count_admins-modify id f (v ∷ us) (suc i) u h = ground (arith, count_admins-modify id f us i u h)

pub count_admins-le : (id : Bytes) (us : List User) → count_admins id us ≤ count_in_session id us
unfolding count_admins count_in_session
count_admins-le id [] = omega arith
count_admins-le id (u ∷ us) = ground (arith, count_admins-le id us)

-- A change of the user `u` at `i` that keeps the name keeps the table if it keeps the user's own
-- invariant and no count grows past its bound.
pub modify-IsTable :
    (f : User → User) (us : List User) (i : ℕ) (u : User)
    → IsTable us
    → get_elem? us i ≡ some u
    → ((v : User) → (f v).username ≡ v.username)
    → IsUser (f u)
    → ((id : Bytes) → id ≢ not_in_session → count_in_session id (modify us i f) ≤ max_session_user)
    → ((id : Bytes) → id ≢ not_in_session → count_admins id (modify us i f) ≤ 1)
    → IsTable (modify us i f)
modify-IsTable f us i u t at keep ok sizes admins = record {
  users =
      All-modify f IsUser us i t.users
        (λ v e. subst IsUser (ap f (some-injective _ _ (sym at ∙ e))) ok);
  distinct = rw (names-modify f us i keep) t.distinct;
  sizes = sizes;
  admins = admins;
}

module _ (us : List User) (i : ℕ) (u : User) (t : IsTable us) (at : get_elem? us i ≡ some u) where
  this-IsUser : IsUser u
  this-IsUser = All_at IsUser us i t.users at

  -- Joining a session that has room.
  pub enter-IsTable :
      (id : Bytes)
      → u.in_session ≡ offline
      → u.status ≡ online
      → id ≢ not_in_session
      → NoNul id
      → length id < max_session_length
      → count_in_session id us < max_session_user
      → IsTable (modify us i (enter id))
  enter-IsTable id out on ne nul fits room =
      modify-IsTable (enter id) us i u t at (λ v. refl)
        (record {
          name = this-IsUser.name;
          word = this-IsUser.word;
          id_text = nul;
          id_fits = fits;
          place = inl (refl, ne);
          rank = this-IsUser.rank;
          presence = inl on;
        })
        (λ k hk. ground (
          arith,
          count_in_session-modify (enter id) k us i u at,
          t.sizes k hk,
          str_eq_iff id k,
          this-IsUser,
          room,
        ))
        (λ k hk. ground (
          arith,
          count_admins-modify k (enter id) us i u at,
          t.admins k hk,
          str_eq_iff id k,
          str_eq_iff u.session_id k,
          this-IsUser,
        ))

  -- Creating a session that nobody has.
  pub found_session-IsTable :
      (id : Bytes)
      → u.status ≡ online
      → id ≢ not_in_session
      → NoNul id
      → length id < max_session_length
      → count_in_session id us ≡ 0
      → IsTable (modify us i (found_session id))
  found_session-IsTable id on ne nul fits none_there =
      modify-IsTable (found_session id) us i u t at (λ v. refl)
        (record {
          name = this-IsUser.name;
          word = this-IsUser.word;
          id_text = nul;
          id_fits = fits;
          place = inl (refl, ne);
          rank = inr refl;
          presence = inl on;
        })
        (λ k hk. ground (
          arith,
          count_in_session-modify (found_session id) k us i u at,
          t.sizes k hk,
          str_eq_iff id k,
          none_there,
        ))
        (λ k hk. ground (
          arith,
          count_admins-modify k (found_session id) us i u at,
          t.admins k hk,
          str_eq_iff id k,
          count_admins-le id us,
          none_there,
        ))

  -- Leaving, by `f`, whatever session the user is in.
  out-IsTable :
      (f : User → User)
      → ((v : User) → (f v).username ≡ v.username)
      → (f u).session_id ≡ not_in_session
      → IsUser (f u)
      → IsTable (modify us i f)
  out-IsTable f keep session ok =
      modify-IsTable f us i u t at keep ok
        (λ k hk. ground (
          arith,
          count_in_session-modify f k us i u at,
          t.sizes k hk,
          str_eq_iff (f u).session_id k,
          session,
        ))
        (λ k hk. ground (
          arith,
          count_admins-modify k f us i u at,
          t.admins k hk,
          str_eq_iff (f u).session_id k,
          session,
        ))

  -- Data that no session depends on.
  pub log_out-IsTable : u.in_session ≡ offline → IsTable (modify us i log_out)
  log_out-IsTable out =
      modify-IsTable log_out us i u t at (λ v. refl)
        (record {
          name = this-IsUser.name;
          word = this-IsUser.word;
          id_text = this-IsUser.id_text;
          id_fits = this-IsUser.id_fits;
          place = this-IsUser.place;
          rank = this-IsUser.rank;
          presence = inr (refl, out);
        })
        (λ k hk. ground (arith, count_in_session-modify log_out k us i u at, t.sizes k hk))
        (λ k hk. ground (arith, count_admins-modify k log_out us i u at, t.admins k hk))

  pub leave_session-IsTable : IsTable (modify us i leave_session)
  leave_session-IsTable =
      out-IsTable leave_session (λ v. refl) refl
        (record {
          name = this-IsUser.name;
          word = this-IsUser.word;
          id_text = omega arith;
          id_fits = omega arith;
          place = inr (refl, refl, refl);
          rank = inl refl;
          presence = ground (arith, this-IsUser.presence);
        })

  pub expel-IsTable : u.role ≡ user → IsTable (modify us i expel)
  expel-IsTable role =
      out-IsTable expel (λ v. refl) refl
        (record {
          name = this-IsUser.name;
          word = this-IsUser.word;
          id_text = omega arith;
          id_fits = omega arith;
          place = inr (refl, refl, role);
          rank = inl role;
          presence = ground (arith, this-IsUser.presence);
        })
