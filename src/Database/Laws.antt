-- ===== src/Database/Laws.antt =====
-- Facts about the table of users: searches, counts, and what a change of one user does to them.
use ece.Base.{
  ℕ, zero, suc, ◌+◌, ◌≡◌, refl, ap, subst, ◌≢◌, List, [], ◌∷◌, ◌++◌, length, map, none, some, arith,
  Bytes, if◌then◌else◌, get_elem?, modify, All, str_eq, str_eq_iff, Option-cases,
}
use mathlib.Core.Option
use ece.Store.{User}
use ece.Database.{find_user, count_in_session}

-- The names of the table. No operation changes the name of a user.
abbrev pub names : List User → List Bytes
names = map (λ u. u.username)

-- No two users have one name.
abbrev pub Distinct : List Bytes → Type 0
Distinct [] = Unit
Distinct (n ∷ ns) = All (λ m. m ≢ n) ns × Distinct ns

-- A search gives the first user of that name.
pub find_user_sound :
    (name : Bytes) (us : List User) (i : ℕ)
    → find_user name us ≡ some i
    → (u : User) × (get_elem? us i ≡ some u) × (u.username ≡ name)
unfolding find_user
find_user_sound name [] i h = absurd (cc)
find_user_sound name (u ∷ us) zero h =
    (u, refl, ground (arith, str_eq_iff u.username name, Option-cases (find_user name us)))
find_user_sound name (u ∷ us) (suc i) h =
    find_user_sound name us i (ground (arith, Option-cases (find_user name us)))

pub find_user-none :
    (name : Bytes) (us : List User) → find_user name us ≡ none → All (λ m. m ≢ name) (names us)
unfolding find_user
find_user-none name [] h = tt
find_user-none name (u ∷ us) h =
    ground
      (arith, str_eq_iff u.username name, find_user-none name us, Option-cases (find_user name us))

pub find_user_missing :
    (name : Bytes) (us : List User) → All (λ m. m ≢ name) (names us) → find_user name us ≡ none
unfolding find_user
find_user_missing name [] h = refl
find_user_missing name (u ∷ us) h =
    ground (arith, str_eq_iff u.username name, find_user_missing name us)

-- A new name stands at the end.
pub find_user-new :
    (name : Bytes) (us : List User) (u : User)
    → find_user name us ≡ none
    → u.username ≡ name
    → find_user name (us ++ u ∷ []) ≡ some (length us)
unfolding find_user
find_user-new name [] u h e = ground (arith, str_eq_iff u.username name)
find_user-new name (v ∷ us) u h e =
    ground
      (arith, str_eq_iff v.username name, find_user-new name us u, Option-cases (find_user name us))

module _ (f : User → User) where
  pub names-modify :
      (us : List User) (i : ℕ)
      → ((u : User) → (f u).username ≡ u.username)
      → names (modify us i f) ≡ names us
  names-modify [] i h = refl
  names-modify (u ∷ us) zero h = cc (h u)
  names-modify (u ∷ us) (suc i) h = cc (names-modify us i h)

  pub All-modify {κ} :
      (P : User → Type κ) (us : List User) (i : ℕ)
      → All P us
      → ((u : User) → get_elem? us i ≡ some u → P (f u))
      → All P (modify us i f)
  All-modify P [] i h k = tt
  All-modify P (u ∷ us) zero h k = (k u refl, h.1)
  All-modify P (u ∷ us) (suc i) h k = (h.0, All-modify P us i h.1 k)

  pub get_elem?-modify_self :
      (us : List User) (i : ℕ) {u : User}
      → get_elem? us i ≡ some u
      → get_elem? (modify us i f) i ≡ some (f u)
  get_elem?-modify_self [] i h = absurd (cc)
  get_elem?-modify_self (v ∷ us) zero h = ground arith
  get_elem?-modify_self (v ∷ us) (suc i) h = get_elem?-modify_self us i h

  pub get_elem?-modify_ne :
      (us : List User) (i j : ℕ) → i ≢ j → get_elem? (modify us i f) j ≡ get_elem? us j
  get_elem?-modify_ne [] i j h = refl
  get_elem?-modify_ne (v ∷ us) zero zero h = absurd (h refl)
  get_elem?-modify_ne (v ∷ us) zero (suc j) h = refl
  get_elem?-modify_ne (v ∷ us) (suc i) zero h = refl
  get_elem?-modify_ne (v ∷ us) (suc i) (suc j) h = get_elem?-modify_ne us i j (λ e. h (ap suc e))

  -- A change of one user moves a count by what it does to that user.
  pub count_in_session-modify :
      (id : Bytes) (us : List User) (i : ℕ) (u : User)
      → get_elem? us i ≡ some u
      → count_in_session id (modify us i f) + (if str_eq u.session_id id then 1 else 0)
        ≡ count_in_session id us + (if str_eq (f u).session_id id then 1 else 0)
  unfolding count_in_session
  count_in_session-modify id [] i u h = absurd (cc)
  count_in_session-modify id (v ∷ us) zero u h = ground arith
  count_in_session-modify id (v ∷ us) (suc i) u h =
      ground (arith, count_in_session-modify id us i u h)

pub All_at {κ} :
    (P : User → Type κ) (us : List User) (i : ℕ) {u : User}
    → All P us
    → get_elem? us i ≡ some u
    → P u
All_at P [] i h e = absurd (cc)
All_at P (v ∷ us) zero h e = subst P (Option.some-injective _ _ e) h.0
All_at P (v ∷ us) (suc i) h e = All_at P us i h.1 e

pub names_at :
    (us : List User) (i : ℕ) {u : User}
    → get_elem? us i ≡ some u
    → get_elem? (names us) i ≡ some u.username
names_at [] i h = absurd (cc)
names_at (v ∷ us) zero h = ground arith
names_at (v ∷ us) (suc i) h = names_at us i h

-- The search depends on the names alone.
pub find_user-names :
    (name : Bytes) (us vs : List User) → names us ≡ names vs → find_user name us ≡ find_user name vs
unfolding find_user
find_user-names name [] [] h = refl
find_user-names name [] (v ∷ vs) h = cc
find_user-names name (u ∷ us) [] h = cc
find_user-names name (u ∷ us) (v ∷ vs) h =
    let head : u.username ≡ v.username = cc in
    let rest : names us ≡ names vs = cc in rw (head, find_user-names name us vs rest)
