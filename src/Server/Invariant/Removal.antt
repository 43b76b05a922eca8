-- ===== src/Server/Invariant/Removal.antt =====
-- user.c: remove_user_by_name_in_database on the valid states of the table.
use ece.Base.{
  ◌≡◌, refl, ◌∙◌, ap, subst, false, ◌≢◌, ◌≤◌, ◌<◌, List, [], ◌∷◌, ◌++◌, none, arith, Bytes, All,
  length, str_eq, str_eq_iff, Bool-cases, Option-cases, inl, inr,
}
use ece.Store.{User, Server, ok, rw as rw_mutex, unlock}
use ece.Store.Laws.{bind_ok, lock-run}
use ece.Database.{
  find_user, count_in_session, user_database_add_user, add_user_success, max_user_count,
}
use ece.Database.Laws.{names, Distinct, find_user_missing}
use ece.Database.Removal.{remove_user_by_name_in_database}
use ece.Database.Removal.Loop.{without, remove_at-without}
use ece.Server.Invariant.{IsUser, IsTable, IsValid, count_admins}
use ece.Server.Login.Register.{Fits, add_user_new}

without-missing : (name : Bytes) (us : List User) → find_user name us ≡ none → without name us ≡ us
unfolding find_user without
without-missing name [] h = refl
without-missing name (u ∷ us) h =
    ground (arith, Option-cases (find_user name us), without-missing name us)

-- The run, whether the name is in the table or not.
pub remove_user-run :
    (name : Bytes) (s : Server)
    → s.rw_mutex ≡ false
    → remove_user_by_name_in_database name rw_mutex s
      ≡ ok tt (record s { user_list = without name s.user_list })
unfolding remove_user_by_name_in_database unlock
remove_user-run name s free = bind_ok _ _ (lock-run rw_mutex s free) (
    bind_ok _ _ refl (elim (Option-cases (find_user name s.user_list)) [
      | inl e ↦ rw e (rw (without-missing name s.user_list e, free) refl)
      | inr (i, e) ↦
          rw e (bind_ok _ _ refl (rw (remove_at-without name s.user_list i e, free) refl))
    ]))

All-without {κ} :
    (P : User → Type κ) (name : Bytes) (us : List User) → All P us → All P (without name us)
unfolding without
All-without P name [] h = tt
All-without P name (u ∷ us) h = elim (Bool-cases (str_eq u.username name)) [
  | inl e ↦ rw e h.1
  | inr e ↦ rw e (h.0, All-without P name us h.1)
]

names-without :
    (Q : Bytes → Type 0) (name : Bytes) (us : List User)
    → All Q (names us)
    → All Q (names (without name us))
unfolding without
names-without Q name [] h = tt
names-without Q name (u ∷ us) h = elim (Bool-cases (str_eq u.username name)) [
  | inl e ↦ rw e h.1
  | inr e ↦ rw e (h.0, names-without Q name us h.1)
]

Distinct-without :
    (name : Bytes) (us : List User) → Distinct (names us) → Distinct (names (without name us))
unfolding without
Distinct-without name [] d = tt
Distinct-without name (u ∷ us) d = elim (Bool-cases (str_eq u.username name)) [
  | inl e ↦ rw e d.1
  | inr e ↦ rw e (names-without (λ m. m ≢ u.username) name us d.0, Distinct-without name us d.1)
]

-- Names are unique, so that no second user of the name is left.
without-gone :
    (name : Bytes) (us : List User)
    → Distinct (names us)
    → All (λ m. m ≢ name) (names (without name us))
unfolding without
without-gone name [] d = tt
without-gone name (u ∷ us) d = elim (Bool-cases (str_eq u.username name)) [
  | inl e ↦ rw e (subst (λ n. All (λ m. m ≢ n) (names us)) ((str_eq_iff u.username name).0 e) d.0)
  | inr e ↦
      rw e (
        λ same. absurd (ground (arith, str_eq_iff u.username name, same)),
        without-gone name us d.1,
      )
]

count_in_session-without :
    (id name : Bytes) (us : List User)
    → count_in_session id (without name us) ≤ count_in_session id us
unfolding without count_in_session
count_in_session-without id name [] = omega arith
count_in_session-without id name (u ∷ us) = ground (arith, count_in_session-without id name us)

count_admins-without :
    (id name : Bytes) (us : List User) → count_admins id (without name us) ≤ count_admins id us
unfolding without count_admins
count_admins-without id name [] = omega arith
count_admins-without id name (u ∷ us) = ground (arith, count_admins-without id name us)

length-without : (name : Bytes) (us : List User) → length (without name us) ≤ length us
unfolding without
length-without name [] = omega arith
length-without name (u ∷ us) = ground (arith, length-without name us)

without-IsTable : (name : Bytes) (us : List User) → IsTable us → IsTable (without name us)
without-IsTable name us t = record {
  users = All-without IsUser name us t.users;
  distinct = Distinct-without name us t.distinct;
  sizes = λ id other. omega (arith, count_in_session-without id name us, t.sizes id other);
  admins = λ id other. omega (arith, count_admins-without id name us, t.admins id other);
}

-- remove_user_by_name_in_database, at a valid state and with any name, returns and leaves a valid state:
-- the table without the first user of that name, in its order, so that nobody has the name any more.
pub remove_user-IsValid :
    (name : Bytes) (s : Server)
    → IsValid s
    → (t : Server) × (remove_user_by_name_in_database name rw_mutex s ≡ ok tt t)
      × IsValid t
      × (t.user_list ≡ without name s.user_list)
      × (find_user name t.user_list ≡ none)
remove_user-IsValid name s v = (
  record s { user_list = without name s.user_list },
  remove_user-run name s v.ready.rw_free,
  record {
    ready = record { rw_free = v.ready.rw_free; user_free = v.ready.user_free };
    table = without-IsTable name s.user_list v.table;
    bounded = omega (arith, length-without name s.user_list, v.bounded);
  },
  refl,
  find_user_missing name (without name s.user_list)
      (without-gone name s.user_list v.table.distinct),
)

without-last :
    (us : List User) (u : User)
    → find_user u.username us ≡ none
    → without u.username (us ++ u ∷ []) ≡ us
unfolding without find_user
without-last [] u h = ground (arith, str_eq_iff u.username u.username)
without-last (v ∷ us) u h =
    ground (arith, Option-cases (find_user u.username us), without-last us u)

-- A user who is added under a new name, while the mutex is free and the array has room for the data, and
-- is then removed by that name, leaves the state as it was.
pub remove_user-add_user :
    (u : User) (s : Server)
    → s.rw_mutex ≡ false
    → find_user u.username s.user_list ≡ none
    → Fits u
    → length s.user_list < max_user_count
    → length s.user_list < s.capacity
    → (t : Server) × (user_database_add_user u rw_mutex s ≡ ok add_user_success t)
      × (remove_user_by_name_in_database u.username rw_mutex t ≡ ok tt s)
remove_user-add_user u s free fresh fits below room =
    let t = record s { user_list = s.user_list ++ u ∷ [] } in
    (
      t,
      add_user_new u s free below fresh fits room,
      remove_user-run u.username t free
          ∙ ap (λ l. ok tt (record s { user_list = l })) (without-last s.user_list u fresh),
    )
