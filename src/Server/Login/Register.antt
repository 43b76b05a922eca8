-- ===== src/Server/Login/Register.antt =====
-- user_database_add_user and user_registration: a new name, a name that is taken, and a full array.
use ece.Base.{
  ℕ, ◌≡◌, refl, ◌∙◌, ◌≤◌, ◌<◌, some, none, true, false, arith, ltb, leb, lt→ltb, strcpy_fits, List,
  [], ◌∷◌, ◌++◌, length,
}
use ece.Message.{max_name}
use ece.Store.{
  User, zero_user, Server, ok, stop, overflow, M, ◌>>=◌, ◌>>◌, rw as rw_mutex, lock, unlock,
  append_user, offline, max_password_length, max_session_length, max_address_length,
}
use ece.Store.Laws.{bind_ok, bind_stop, if_true, if_false, lock-run}
use ece.Database.{
  find_user, create_user, user_database_add_user, get_user_count_in_database, add_user_success,
  user_already_exist, user_list_full, max_user_count,
}
use ece.Database.Run.{database_search_user-run, get_user_count_in_database-run}

-- A user whose texts fit the arrays.
pub record Fits (u : User) : Type 0 where
  pub name : length u.username < max_name
  pub word : length u.password < max_password_length
  pub session : length u.session_id < max_session_length
  pub address : length u.ip_address < max_address_length
  pub outside : u.in_session ≡ offline

create_user-Fits : (u : User) → Fits u → create_user zero_user u ≡ some u
unfolding create_user
create_user-Fits u f = ground (
  arith,
  strcpy_fits max_name u.username f.name,
  strcpy_fits max_password_length u.password f.word,
  strcpy_fits max_session_length u.session_id f.session,
  strcpy_fits max_address_length u.ip_address f.address,
  f.outside,
)

append_closed : (us : List User) (c : ℕ) → c ≤ length us → ltb (length us) c ≡ false
append_closed us c h = ground arith

full_test : (n : ℕ) → max_user_count ≤ n → leb max_user_count n ≡ true
full_test n h = ground arith

room_test : (n : ℕ) → n < max_user_count → leb max_user_count n ≡ false
room_test n h = ground arith

module _ (u : User) (s : Server) (free : s.rw_mutex ≡ false) where
  held_state : Server
  held_state = record s { rw_mutex = true }

  add_start :
      (rest : ℕ → M ℕ)
      → (do count ← get_user_count_in_database rw_mutex; lock rw_mutex; rest count) s
        ≡ rest (length s.user_list) held_state
  unfolding held_state
  add_start rest =
      bind_ok _ _ (get_user_count_in_database-run rw_mutex s free)
        (bind_ok _ _ (lock-run rw_mutex s free) refl)

  pub add_user_full :
      max_user_count ≤ length s.user_list
      → user_database_add_user u rw_mutex s ≡ ok user_list_full s
  unfolding user_database_add_user held_state unlock
  add_user_full h =
      add_start _ ∙ if_true _ _ (full_test (length s.user_list) h) (bind_ok _ _ refl (rw free))

  pub add_user_taken :
      (i : ℕ)
      → length s.user_list < max_user_count
      → find_user u.username s.user_list ≡ some i
      → user_database_add_user u rw_mutex s ≡ ok user_already_exist s
  unfolding user_database_add_user held_state unlock
  add_user_taken i room h =
      add_start _
      ∙ if_false _ _ (room_test (length s.user_list) room) (
          bind_ok _ _ (database_search_user-run u.username held_state)
            (rw h (bind_ok _ _ refl (rw free))))

  module _ (room : length s.user_list < max_user_count)
      (fresh : find_user u.username s.user_list ≡ none) (fits : Fits u) where
    pub add_user_new :
        length s.user_list < s.capacity
        → user_database_add_user u rw_mutex s
          ≡ ok add_user_success (record s { user_list = s.user_list ++ u ∷ [] })
    unfolding user_database_add_user held_state unlock append_user
    add_user_new h =
        add_start _
        ∙ if_false _ _ (room_test (length s.user_list) room) (
            bind_ok _ _ (database_search_user-run u.username held_state) (
              rw fresh (
                bind_ok _ _ {t = held_state} {a = u} (rw (create_user-Fits u fits)) (
                  bind_ok _ _ {t = record held_state { user_list = s.user_list ++ u ∷ [] }}
                    (rw (append_user, lt→ltb _ _ h)) (bind_ok _ _ refl (rw free))))))

    -- Adding a new name whose data fits its arrays, while the table is below MAX_USER_COUNT but
    -- fills the array that was allocated, writes behind the end of that array.
    pub add_user_overflow :
        s.capacity ≤ length s.user_list → user_database_add_user u rw_mutex s ≡ stop overflow
    unfolding user_database_add_user held_state unlock append_user
    add_user_overflow h =
        add_start _
        ∙ if_false _ _ (room_test (length s.user_list) room) (
            bind_ok _ _ (database_search_user-run u.username held_state) (
              rw fresh (
                bind_ok _ _ {t = held_state} {a = u} (rw (create_user-Fits u fits))
                  (bind_stop _ _ (rw (append_user, append_closed s.user_list s.capacity h))))))
