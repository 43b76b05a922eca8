-- ===== src/Server/Login/Safety.antt =====
-- user.c: user_database_add_user on the valid states of the table.
use ece.Base.{
  ℕ, ◌≡◌, sym, ◌≢◌, ◌<◌, inl, inr, [], ◌∷◌, ◌++◌, List, All, All-append, none, Option-cases, arith,
  Bytes, length, length-append, str_eq_iff, leb, Bool-cases,
}
use ece.Store.{User, Server, ok, rw as rw_mutex, offline, not_in_session, max_address_length}
use ece.Database.{find_user, count_in_session, user_database_add_user, max_user_count}
use ece.Database.Laws.{names, Distinct, find_user-none}
use ece.Server.Login.Register.{Fits, add_user_full, add_user_taken, add_user_new}
use ece.Server.Invariant.{IsUser, IsTable, IsValid, count_admins}

-- A user as `user_registration` makes it.
pub record IsNew (u : User) : Type 0 where
  pub valid : IsUser u
  pub address : length u.ip_address < max_address_length
  pub outside : u.in_session ≡ offline

new_place : (u : User) → IsNew u → u.session_id ≡ not_in_session
new_place u n = ground (arith, n.outside, n.valid.place)

pub new_Fits : (u : User) → IsNew u → Fits u
new_Fits u n = record {
  name = omega (arith, n.valid.name.fits);
  word = n.valid.word;
  session = n.valid.id_fits;
  address = n.address;
  outside = n.outside;
}

module _ (u : User) (n : u.session_id ≡ not_in_session) (id : Bytes)
    (other : id ≢ not_in_session) where
  count_in_session-append_new :
      (us : List User) → count_in_session id (us ++ u ∷ []) ≡ count_in_session id us
  unfolding count_in_session
  count_in_session-append_new [] = ground (arith, str_eq_iff u.session_id id)
  count_in_session-append_new (v ∷ us) = ground (arith, count_in_session-append_new us)

  count_admins-append_new : (us : List User) → count_admins id (us ++ u ∷ []) ≡ count_admins id us
  unfolding count_admins
  count_admins-append_new [] = ground (arith, str_eq_iff u.session_id id)
  count_admins-append_new (v ∷ us) = ground (arith, count_admins-append_new us)

Distinct-append :
    (u : User) (us : List User)
    → Distinct (names us)
    → All (λ m. m ≢ u.username) (names us)
    → Distinct (names (us ++ u ∷ []))
Distinct-append u [] d f = (tt, tt)
Distinct-append u (v ∷ us) d f = (apart us d.0, Distinct-append u us d.1 f.1)
  where
    apart :
        (ws : List User)
        → All (λ m. m ≢ v.username) (names ws)
        → All (λ m. m ≢ v.username) (names (ws ++ u ∷ []))
    apart [] h = (λ e. f.0 (sym e), tt)
    apart (w ∷ ws) h = (h.0, apart ws h.1)

pub append-IsTable :
    (u : User) (us : List User)
    → IsTable us
    → IsNew u
    → find_user u.username us ≡ none
    → IsTable (us ++ u ∷ [])
append-IsTable u us t n fresh = record {
  users = All-append IsUser us (u ∷ []) t.users (n.valid, tt);
  distinct = Distinct-append u us t.distinct (find_user-none u.username us fresh);
  sizes =
      λ id other. rw (count_in_session-append_new u (new_place u n) id other us) (t.sizes id other);
  admins =
      λ id other. rw (count_admins-append_new u (new_place u n) id other us) (t.admins id other);
}

append-IsValid :
    (u : User) (s : Server)
    → IsValid s
    → IsNew u
    → find_user u.username s.user_list ≡ none
    → length s.user_list < s.capacity
    → IsValid (record s { user_list = s.user_list ++ u ∷ [] })
append-IsValid u s v n fresh room = record {
  ready = record { rw_free = v.ready.rw_free; user_free = v.ready.user_free };
  table = append-IsTable u s.user_list v.table n fresh;
  bounded = omega (arith, length-append s.user_list (u ∷ []));
}

-- Registration.
pub user_database_add_user-IsValid :
    (u : User) (s : Server)
    → IsValid s
    → IsNew u
    → length s.user_list < s.capacity
    → (code : ℕ) × (t : Server) × (user_database_add_user u rw_mutex s ≡ ok code t) × IsValid t
user_database_add_user-IsValid u s v n room =
    elim (Bool-cases (leb max_user_count (length s.user_list))) [
      | inl e ↦ (_, s, add_user_full u s v.ready.rw_free (ground arith), v)
      | inr e ↦ elim (Option-cases (find_user u.username s.user_list)) [
        | inl fresh ↦ (
          _,
          _,
          add_user_new u s v.ready.rw_free (ground arith) fresh (new_Fits u n) room,
          append-IsValid u s v n fresh room,
        )
        | inr (i, found) ↦ (_, s, add_user_taken u s v.ready.rw_free i (ground arith) found, v)
      ]
    ]
