-- ===== src/Database/Removal.antt =====
-- user.c: remove_user_by_name_in_database, which closes the gap in the array.
pub mod Loop
use ece.Base.{ℕ, zero, suc, ◌+◌, ◌-◌, List, none, some, Bytes, length, get_elem?, modify, take}
use ece.Store.{User, zero_user, ok, M, ◌>>=◌, ◌>>◌, Mutex, lock, unlock, get_users}
use ece.Database.{find_user}

-- `list->user_list[j] = list->user_list[j + 1]`
unfoldable pub move_down : ℕ → List User → List User
move_down j users = elim (get_elem? users (j + 1)) [
  | none ↦ users
  | some next ↦ modify users j (λ old. next)
]

-- The inner loop, with the rounds that are left.
unfoldable pub close_gap : ℕ → ℕ → List User → List User
close_gap zero j users = users
close_gap (suc rounds) j users = close_gap rounds (j + 1) (move_down j users)

-- The entry at `i` is cleared, those behind it move down, and the count goes down by one.
unfoldable pub remove_at : ℕ → List User → List User
unfolding close_gap move_down
remove_at i users =
    let count = length users in
    take (count - 1) (close_gap (count - 1 - i) i (modify users i (λ old. zero_user)))

unfoldable pub remove_user_by_name_in_database : Bytes → Mutex → M (Unit {0})
unfolding lock unlock get_users remove_at
remove_user_by_name_in_database name m = do
  lock m
  users ← get_users
  elim (find_user name users) [
    | none ↦ unlock m
    | some i ↦ do λ s. ok tt (record s { user_list = remove_at i s.user_list }); unlock m
  ]
