-- ===== src/Server/Conference.antt =====
-- What a user of the conference sees of the table: who sits in which session, and who is an admin. The
-- order of the table, passwords, sockets and output are forgotten.
pub mod View
pub mod Steps
pub mod Refinement
use ece.Base.{
  ℕ, ◌≡◌, ◌≢◌, Bool, true, false, ◌||◌, List, [], ◌∷◌, Bytes, ◌==◌, str_eq, if◌then◌else◌,
}
use ece.Store.{User, admin, not_in_session}

pub data Seat : Type 0 where
  outside : Seat
  seated : Bytes → Bool → Seat

abbrev pub Conference : Type 0
Conference = Bytes → Seat

abbrev pub seat_of : User → Seat
seat_of u =
    if str_eq u.session_id not_in_session then outside else seated u.session_id (u.role == admin)

-- A name that nobody has is outside.
unfoldable pub view : List User → Conference
view [] name = outside
view (u ∷ us) name = if str_eq u.username name then seat_of u else view us name

unfoldable pub move_to : Bytes → Seat → Conference → Conference
move_to name seat c other = if str_eq other name then seat else c other

-- Whoever sits in that session is an admin.
unfoldable pub crown : Bytes → Seat → Seat
crown id outside = outside
crown id (seated other b) = seated other (str_eq other id || b)

-- How many sit in a session: nobody, one user, or at least two.
abbrev pub Nobody : Bytes → Conference → Type 0
Nobody id c = (name : Bytes) (b : Bool) → c name ≢ seated id b

abbrev pub Alone : Bytes → Conference → Type 0
Alone id c =
    (name other : Bytes) (a b : Bool) → c name ≡ seated id a → c other ≡ seated id b → name ≡ other

pub record Company (id : Bytes) (c : Conference) : Type 0 where
  pub one : Bytes
  pub two : Bytes
  pub rank_one : Bool
  pub rank_two : Bool
  pub sits_one : c one ≡ seated id rank_one
  pub sits_two : c two ≡ seated id rank_two
  pub apart : one ≢ two

-- What is asked for, and by whom.
pub data Deed : Type 0 where
  quiet : Deed
  entry founding expulsion handover : Bytes → Bytes → Deed
  leaving : Bytes → Deed

-- What a deed can do to the conference. To enter, to found, to expel and to hand over may be refused;
-- to leave is not, and it leaves an admin behind where one user remains.
pub data Move : Deed → Conference → Conference → Type 0 where
  unseen : {c : Conference} → Move quiet c c
  turned_away : {c : Conference} (name id : Bytes) → Move (entry name id) c c
  enters :
      {c : Conference} (name other id : Bytes) (b : Bool)
      → c name ≡ outside
      → c other ≡ seated id b
      → Move (entry name id) c (move_to name (seated id false) c)
  exists_already :
      {c : Conference} (name other id : Bytes) (b : Bool)
      → c other ≡ seated id b
      → Move (founding name id) c c
  founds :
      {c : Conference} (name id : Bytes)
      → Nobody id c
      → Move (founding name id) c (move_to name (seated id true) c)
  not_inside : {c : Conference} (name : Bytes) → c name ≡ outside → Move (leaving name) c c
  leaves_nobody :
      {c : Conference} (name id : Bytes) (b : Bool)
      → c name ≡ seated id b
      → Nobody id (move_to name outside c)
      → Move (leaving name) c (move_to name outside c)
  leaves_to_last :
      {c : Conference} (name last id : Bytes) (b a : Bool)
      → c name ≡ seated id b
      → move_to name outside c last ≡ seated id a
      → Alone id (move_to name outside c)
      → Move (leaving name) c (λ other. crown id (move_to name outside c other))
  leaves_company :
      {c : Conference} (name id : Bytes) (b : Bool)
      → c name ≡ seated id b
      → Company id (move_to name outside c)
      → Move (leaving name) c (move_to name outside c)
  not_expelled : {c : Conference} (sender target : Bytes) → Move (expulsion sender target) c c
  expels :
      {c : Conference} (sender target id : Bytes) (b : Bool)
      → c sender ≡ seated id b
      → c target ≡ seated id false
      → Move (expulsion sender target) c (move_to target outside c)
  not_handed : {c : Conference} (sender target : Bytes) → Move (handover sender target) c c
  hands_over :
      {c : Conference} (sender target id : Bytes)
      → c sender ≡ seated id true
      → c target ≡ seated id false
      → Move
          (handover sender target)
          c
          (move_to sender (seated id false) (move_to target (seated id true) c))
