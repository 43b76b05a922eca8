-- ===== src/Database/Run.antt =====
-- The functions of user.c at a state whose mutex is free: what they return, and that they give the
-- mutex back.
use ece.Base.{ℕ, ◌≡◌, refl, ap, ◌∙◌, false, some, Bytes, length, get_elem?}
use ece.Store.{User, Server, ok, Mutex, rw as rw_mutex, user_lock, held, ◌>>=◌}
use ece.Database.{
  find_user, count_in_session, database_search_user, return_user_by_username,
  get_user_count_in_a_session, get_user_count_in_database,
}

pub database_search_user-run :
    (name : Bytes) (s : Server) → database_search_user name s ≡ ok (find_user name s.user_list) s
unfolding database_search_user ◌>>=◌
database_search_user-run name s = refl

pub get_user_count_in_a_session-run :
    (id : Bytes) (m : Mutex) (s : Server)
    → held m s ≡ false
    → get_user_count_in_a_session id m s ≡ ok (count_in_session id s.user_list) s
unfolding get_user_count_in_a_session ◌>>=◌
get_user_count_in_a_session-run id rw_mutex s free = rw free
get_user_count_in_a_session-run id user_lock s free = rw free

pub get_user_count_in_database-run :
    (m : Mutex) (s : Server)
    → held m s ≡ false
    → get_user_count_in_database m s ≡ ok (length s.user_list) s
unfolding get_user_count_in_database ◌>>=◌
get_user_count_in_database-run rw_mutex s free = rw free
get_user_count_in_database-run user_lock s free = rw free

pub search-run :
    (name : Bytes) (s : Server) {i : ℕ}
    → find_user name s.user_list ≡ some i
    → database_search_user name s ≡ ok (some i) s
search-run name s h = database_search_user-run name s ∙ ap (λ p. ok p s) h

pub return_user-run :
    (name : Bytes) (s : Server) {i : ℕ}
    → find_user name s.user_list ≡ some i
    → return_user_by_username name s ≡ ok (some i) s
unfolding return_user_by_username ◌>>=◌
return_user-run name s h = ap (λ p. ok p s) h

-- Both mutexes are free.
pub record Ready (s : Server) : Type 0 where
  pub rw_free : s.rw_mutex ≡ false
  pub user_free : s.user_list_mutex ≡ false

-- The search for the name ends at `i`, where the user `u` stands.
pub record Located (name : Bytes) (s : Server) (i : ℕ) (u : User) : Type 0 where
  pub found : find_user name s.user_list ≡ some i
  pub at : get_elem? s.user_list i ≡ some u
