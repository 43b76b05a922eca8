-- ===== src/Server/Invariant.antt =====
-- What holds of the table of users between two requests.
pub mod Table
pub mod Roles
pub mod Removal
use ece.Base.{
  ℕ, ◌+◌, ◌≡◌, ◌≢◌, ◌≤◌, ◌<◌, ◌⊎◌, Bool, true, false, ◌&&◌, List, [], ◌∷◌, Bytes, NoNul, All,
  length, str_eq, ◌==◌, if◌then◌else◌,
}
use ece.Message.RoundTrip.{IsName}
use ece.Store.{
  User, Server, online, offline, user, admin, not_in_session, max_session_length,
  max_password_length,
}
use ece.Store.Laws.{IsText}
use ece.Database.{count_in_session, max_session_user}
use ece.Database.Laws.{names, Distinct}
use ece.Database.Run.{Ready}

-- A user outside of every session has no role; a user who is not online is in no session.
pub record IsUser (u : User) : Type 0 where
  pub name : IsName u.username
  pub word : length u.password < max_password_length
  pub id_text : NoNul u.session_id
  pub id_fits : length u.session_id < max_session_length
  pub place :
      ((u.in_session ≡ online) × (u.session_id ≢ not_in_session))
      ⊎ ((u.in_session ≡ offline) × (u.session_id ≡ not_in_session) × (u.role ≡ user))
  pub rank : (u.role ≡ user) ⊎ (u.role ≡ admin)
  pub presence : (u.status ≡ online) ⊎ ((u.status ≡ offline) × (u.in_session ≡ offline))

abbrev pub is_admin_of : Bytes → User → Bool
is_admin_of id u = str_eq u.session_id id && u.role == admin

-- The admins of a session.
unfoldable pub count_admins : Bytes → List User → ℕ
count_admins id [] = 0
count_admins id (u ∷ us) =
    let rest = count_admins id us in (if is_admin_of id u then 1 else 0) + rest

-- Names are unique, no session has more than six users, and none has two admins.
pub record IsTable (us : List User) : Type 0 where
  pub users : All IsUser us
  pub distinct : Distinct (names us)
  pub sizes : (id : Bytes) → id ≢ not_in_session → count_in_session id us ≤ max_session_user
  pub admins : (id : Bytes) → id ≢ not_in_session → count_admins id us ≤ 1

pub record IsValid (s : Server) : Type 0 where
  pub ready : Ready s
  pub table : IsTable s.user_list
  pub bounded : length s.user_list ≤ s.capacity
