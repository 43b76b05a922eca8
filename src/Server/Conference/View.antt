-- ===== src/Server/Conference/View.antt =====
-- How changes of the table show.
use ece.Base.{
  ℕ, zero, suc, ◌≡◌, refl, ◌∙◌, ap, fun_ext, ◌<◌, ◌≢◌, inl, inr, Bool, true, false, Bool-cases,
  List, [], ◌∷◌, ◌++◌, map, some, arith, Bytes, str_eq, str_eq_iff, str_eq_comm, str_eq_refl, All,
  ◌⊎◌, Option-cases, ◌==◌, if◌then◌else◌, get_elem?, modify,
}
use mathlib.Core.Option.{some-injective}
use ece.Store.{User, admin, user, not_in_session}
use ece.Database.{find_user, count_in_session, promote_in_session}
use ece.Database.Laws.{names, Distinct}
use ece.Server.Conference.{outside, seated, seat_of, view, move_to, crown, Company}

-- Where a search ends.
find_here :
    (name : Bytes) (v : User) (us : List User)
    → find_user name (v ∷ us) ≡ some 0
    → v.username ≡ name
unfolding find_user
find_here name v us h = ground (arith, str_eq_iff v.username name, Option-cases (find_user name us))

find_later :
    (name : Bytes) (v : User) (us : List User) (i : ℕ)
    → find_user name (v ∷ us) ≡ some (suc i)
    → (str_eq v.username name ≡ false) × (find_user name us ≡ some i)
unfolding find_user
find_later name v us i h = ground (arith, Option-cases (find_user name us))

-- The seat of a user who is found.
pub view_at :
    (name : Bytes) (us : List User) (i : ℕ) (u : User)
    → find_user name us ≡ some i
    → get_elem? us i ≡ some u
    → view us name ≡ seat_of u
unfolding view
view_at name [] i u f a = absurd (cc)
view_at name (v ∷ us) zero u f a =
    rw (find_here name v us f, str_eq_refl name) (ap seat_of (some-injective _ _ a))
view_at name (v ∷ us) (suc i) u f a =
    let (other, found) = find_later name v us i f in rw other (view_at name us i u found a)

view_changed :
    (f : User → User) (name other : Bytes) (us : List User) (i : ℕ) (u : User)
    → ((v : User) → (f v).username ≡ v.username)
    → find_user name us ≡ some i
    → get_elem? us i ≡ some u
    → view (modify us i f) other ≡ (if str_eq other name then seat_of (f u) else view us other)
unfolding view
view_changed f name other [] i u keeps found at = absurd (cc)
view_changed f name other (v ∷ us) zero u keeps found at =
    let named = find_here name v us found in
    let same : v ≡ u = some-injective _ _ at in
    let compares : str_eq (f v).username other ≡ str_eq other name =
      ap (λ n. str_eq n other) (keeps v ∙ named) ∙ str_eq_comm name other in
    let compares' : str_eq v.username other ≡ str_eq other name =
      ap (λ n. str_eq n other) named ∙ str_eq_comm name other in
    elim (Bool-cases (str_eq other name)) [
      | inl e ↦
          let here : str_eq (f v).username other ≡ true = compares ∙ e in
          rw (here, e) (ap (λ w. seat_of (f w)) same)
      | inr e ↦
          let here : str_eq (f v).username other ≡ false = compares ∙ e in
          let there : str_eq v.username other ≡ false = compares' ∙ e in rw (here, there, e) refl
    ]
view_changed f name other (v ∷ us) (suc i) u keeps found at =
    let (apart, later) = find_later name v us i found in
    let rest = view_changed f name other us i u keeps later at in
    elim (Bool-cases (str_eq v.username other)) [
      | inl e ↦
          let differs : str_eq other name ≡ false = ground (arith, str_eq_iff v.username other) in
          rw (e, differs) refl
      | inr e ↦ rw e rest
    ]

pub view-modify :
    (f : User → User) (name : Bytes) (us : List User) (i : ℕ) (u : User)
    → ((v : User) → (f v).username ≡ v.username)
    → find_user name us ≡ some i
    → get_elem? us i ≡ some u
    → view (modify us i f) ≡ move_to name (seat_of (f u)) (view us)
unfolding move_to
view-modify f name us i u keeps found at =
    fun_ext (λ other. view_changed f name other us i u keeps found at)

seat_session : (id : Bytes) (b : Bool) (u : User) → seat_of u ≡ seated id b → u.session_id ≡ id
seat_session id b u h = elim (Bool-cases (str_eq u.session_id not_in_session)) [
  | inl e ↦ absurd (cc (rw e at h))
  | inr e ↦ cc (rw e at h)
]

-- A seat is counted.
pub seat-counts :
    (id name : Bytes) (b : Bool) (us : List User)
    → view us name ≡ seated id b
    → 0 < count_in_session id us
unfolding view count_in_session
seat-counts id name b [] h = absurd (cc)
seat-counts id name b (u ∷ us) h =
    ground (arith, seat_session id b u, seat-counts id name b us, str_eq_iff u.session_id id)

pub seats-count :
    (id name other : Bytes) (a b : Bool) (us : List User)
    → name ≢ other
    → view us name ≡ seated id a
    → view us other ≡ seated id b
    → 1 < count_in_session id us
unfolding view count_in_session
seats-count id name other a b [] n h k = absurd (cc)
seats-count id name other a b (u ∷ us) n h k = ground (
  arith,
  str_eq_iff u.username name,
  str_eq_iff u.username other,
  str_eq_iff u.session_id id,
  seat_session id a u,
  seat_session id b u,
  seat-counts id name a us,
  seat-counts id other b us,
  seats-count id name other a b us n,
)

abbrev pub IsRank : User → Type 0
IsRank u = (u.role ≡ user) ⊎ (u.role ≡ admin)

seat_of-promote :
    (id : Bytes) (u : User)
    → id ≢ not_in_session
    → IsRank u
    → seat_of (promote_in_session id u) ≡ crown id (seat_of u)
unfolding promote_in_session crown
seat_of-promote id u p r =
    ground (arith, str_eq_iff u.session_id id, str_eq_iff u.session_id not_in_session)

username-promote : (id : Bytes) (u : User) → (promote_in_session id u).username ≡ u.username
unfolding promote_in_session
username-promote id u = ground arith

pub view-promote :
    (id : Bytes) (us : List User) (name : Bytes)
    → id ≢ not_in_session
    → All IsRank us
    → view (map (promote_in_session id) us) name ≡ crown id (view us name)
unfolding view crown
view-promote id [] name p r = refl
view-promote id (u ∷ us) name p r =
    let same : str_eq (promote_in_session id u).username name ≡ str_eq u.username name =
      ap (λ n. str_eq n name) (username-promote id u) in
    elim (Bool-cases (str_eq u.username name)) [
      | inl e ↦
          let here : str_eq (promote_in_session id u).username name ≡ true = same ∙ e in
          rw (here, e) (seat_of-promote id u p r.0)
      | inr e ↦
          let here : str_eq (promote_in_session id u).username name ≡ false = same ∙ e in
          rw (here, e) (view-promote id us name p r.1)
    ]

-- Only names of the table have a seat.
view-names :
    (us : List User) (name other id : Bytes) (b : Bool)
    → All (λ m. m ≢ name) (names us)
    → view us other ≡ seated id b
    → name ≢ other
unfolding view
view-names [] name other id b h k = absurd (cc)
view-names (u ∷ us) name other id b h k =
    ground (arith, str_eq_iff u.username other, view-names us name other id b)

-- Whoever is counted has a seat.
pub count-seat :
    (id : Bytes) (us : List User)
    → id ≢ not_in_session
    → Distinct (names us)
    → 0 < count_in_session id us
    → (name : Bytes) × (b : Bool) × (view us name ≡ seated id b)
unfolding view count_in_session
count-seat id [] p d h = absurd (omega arith)
count-seat id (u ∷ us) p d h = elim (Bool-cases (str_eq u.session_id id)) [
  | inl e ↦
      let sits : seat_of u ≡ seated id (u.role == admin) =
        ground (arith, str_eq_iff u.session_id id, str_eq_iff u.session_id not_in_session) in
      (u.username, u.role == admin, rw (str_eq_refl u.username) sits)
  | inr e ↦
      let (name, b, k) = count-seat id us p d.1 (ground arith) in
      let apart : str_eq u.username name ≡ false =
        ground (arith, view-names us u.username name id b d.0 k, str_eq_iff u.username name) in
      (name, b, rw apart k)
]

-- Of two who are counted, each has a seat.
pub count-Company :
    (id : Bytes) (us : List User)
    → id ≢ not_in_session
    → Distinct (names us)
    → 1 < count_in_session id us
    → Company id (view us)
unfolding view count_in_session
count-Company id [] p d h = absurd (omega arith)
count-Company id (u ∷ us) p d h = elim (Bool-cases (str_eq u.session_id id)) [
  | inl e ↦
      let sits : seat_of u ≡ seated id (u.role == admin) =
        ground (arith, str_eq_iff u.session_id id, str_eq_iff u.session_id not_in_session) in
      let (name, b, k) = count-seat id us p d.1 (ground arith) in
      let differs = view-names us u.username name id b d.0 k in
      let past : str_eq u.username name ≡ false =
        ground (arith, differs, str_eq_iff u.username name) in
      record {
        one = u.username;
        two = name;
        rank_one = u.role == admin;
        rank_two = b;
        sits_one = rw (str_eq_refl u.username) sits;
        sits_two = rw past k;
        apart = differs;
      }
  | inr e ↦
      let rest = count-Company id us p d.1 (ground arith) in
      let past_one : str_eq u.username rest.one ≡ false = ground (
        arith,
        view-names us u.username rest.one id rest.rank_one d.0 rest.sits_one,
        str_eq_iff u.username rest.one,
      ) in
      let past_two : str_eq u.username rest.two ≡ false = ground (
        arith,
        view-names us u.username rest.two id rest.rank_two d.0 rest.sits_two,
        str_eq_iff u.username rest.two,
      ) in
      record {
        one = rest.one;
        two = rest.two;
        rank_one = rest.rank_one;
        rank_two = rest.rank_two;
        sits_one = rw past_one rest.sits_one;
        sits_two = rw past_two rest.sits_two;
        apart = rest.apart;
      }
]

-- A change that leaves the names, the sessions and the roles alone does not show.
pub view-modify_same :
    (f : User → User) (us : List User) (i : ℕ)
    → ((v : User) → (f v).username ≡ v.username)
    → ((v : User) → seat_of (f v) ≡ seat_of v)
    → view (modify us i f) ≡ view us
unfolding view
view-modify_same f us i keeps seats = fun_ext (same us i)
  where
    same : (vs : List User) (k : ℕ) (other : Bytes) → view (modify vs k f) other ≡ view vs other
    same [] k other = refl
    same (v ∷ vs) zero other =
        ap (λ n. if str_eq n other then seat_of (f v) else view vs other) (keeps v)
        ∙ ap (λ w. if str_eq v.username other then w else view vs other) (seats v)
    same (v ∷ vs) (suc k) other =
        ap (λ w. if str_eq v.username other then seat_of v else w) (same vs k other)

-- A new user who is in no session does not show.
pub view-append : (us : List User) (u : User) → seat_of u ≡ outside → view (us ++ u ∷ []) ≡ view us
unfolding view
view-append us u h = fun_ext (same us)
  where
    same : (vs : List User) (other : Bytes) → view (vs ++ u ∷ []) other ≡ view vs other
    same [] other = elim (Bool-cases (str_eq u.username other)) [
      | inl e ↦ rw e h
      | inr e ↦ rw e refl
    ]
    same (v ∷ vs) other = ap (λ w. if str_eq v.username other then seat_of v else w) (same vs other)
