-- ===== src/Database/Listing/Fits.antt =====
-- The listings of a table of at most 16 users fit their buffer.
use ece.Base.{
  ◌≡◌, refl, ◌≤◌, true, false, ◌++◌, none, some, arith, Bytes, All, length, strcpy_fits, codes,
  ◌==◌,
}
use ece.Store.{Server, ok, unlock, rw as rw_mutex}
use ece.Store.Laws.{bind_ok, if_true, if_false, lock-run}
use ece.Database.{count_in_session}
use ece.Database.Run.{get_user_count_in_a_session-run}
use ece.Database.Listing.{
  row, row_with_role, strcat, get_active_user_list_in_database, get_active_user_list_in_a_session,
}
use ece.Database.Listing.Bounds.{
  IsListed, Short, row-Short, row_with_role-Short, add_row-Short, online_rows-Short,
  session_rows-Short,
}

-- The title, and the line of the names of the columns.
abbrev title : Bytes
title = codes "Active User List:\n"

title-Short : Short 18 title
title-Short = (ground arith, omega arith)

module _ (s : Server) (free : s.rw_mutex ≡ false) (h : All IsListed s.user_list)
    (few : length s.user_list ≤ 16) where
  pub get_active_user_list_in_database-Short :
      (list : Bytes) × (get_active_user_list_in_database rw_mutex s ≡ ok list s) × Short 664 list
  unfolding get_active_user_list_in_database strcat unlock
  get_active_user_list_in_database-Short =
      let heads =
        row-Short (codes "Username") (codes "Session ID") (ground arith) (omega arith)
          (ground arith) (omega arith) in
      let top = title ++ row (codes "Username") (codes "Session ID") in
      let (added, longer) =
        add_row-Short title (row (codes "Username") (codes "Session ID")) 18 38 title-Short heads
          (omega arith) in
      let (all, run, short) = online_rows-Short s.user_list top 56 h longer (omega arith) in
      (
        all,
        bind_ok _ _ (lock-run rw_mutex s free) (
            bind_ok _ _ refl (
              bind_ok _ _ {t = record s { rw_mutex = true }} {a = title}
                (rw (strcpy_fits 1200 title (omega arith)) refl)
                (bind_ok _ _ {t = record s { rw_mutex = true }} {a = top} (rw added refl) (
                  bind_ok _ _ {t = record s { rw_mutex = true }} {a = all} (rw run refl)
                    (bind_ok _ _ refl (rw free)))))),
        (short.0, omega (arith, short.1, few)),
      )

  -- The listing of a session that somebody is in.
  pub get_active_user_list_in_a_session-Short :
      (id : Bytes)
      → (count_in_session id s.user_list == 0) ≡ false
      → (list : Bytes) × (get_active_user_list_in_a_session id rw_mutex s ≡ ok (some list) s)
        × Short 783 list
  unfolding get_active_user_list_in_a_session strcat unlock
  get_active_user_list_in_a_session-Short id someone =
      let heads =
        row_with_role-Short (codes "Username") (codes "Session ID") (codes "Role") (ground arith)
          (omega arith) (ground arith) (omega arith) (ground arith) (omega arith) in
      let line = row_with_role (codes "Username") (codes "Session ID") (codes "Role") in
      let (added, longer) = add_row-Short title line 18 45 title-Short heads (omega arith) in
      let (all, run, short) =
        session_rows-Short id s.user_list (title ++ line) 63 h longer (omega arith) in
      (
        all,
        bind_ok _ _ (get_user_count_in_a_session-run id rw_mutex s free) (
            if_false _ _ someone (
              bind_ok _ _ (lock-run rw_mutex s free) (
                bind_ok _ _ refl (
                  bind_ok _ _ {t = record s { rw_mutex = true }} {a = title}
                    (rw (strcpy_fits 1200 title (omega arith)) refl)
                    (bind_ok _ _ {t = record s { rw_mutex = true }} {a = title ++ line}
                      (rw added refl)
                      (bind_ok _ _ {t = record s { rw_mutex = true }} {a = all} (rw run refl)
                        (bind_ok _ _ refl (rw free)))))))),
        (short.0, omega (arith, short.1, few)),
      )

  -- One that nobody is in.
  pub get_active_user_list_in_a_session_missing :
      (id : Bytes)
      → (count_in_session id s.user_list == 0) ≡ true
      → get_active_user_list_in_a_session id rw_mutex s ≡ ok none s
  unfolding get_active_user_list_in_a_session
  get_active_user_list_in_a_session_missing id nobody =
      bind_ok _ _ (get_user_count_in_a_session-run id rw_mutex s free) (if_true _ _ nobody refl)
