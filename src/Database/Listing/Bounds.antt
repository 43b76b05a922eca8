-- ===== src/Database/Listing/Bounds.antt =====
-- How long the lines of a listing are.
use ece.Base.{
  ℕ, zero, suc, ◌+◌, ◌-◌, ◌*◌, ◌≡◌, refl, ap, ◌≤◌, ◌<◌, ◌≢◌, inl, inr, Bool-cases, List, [], ◌∷◌,
  ◌++◌, some, arith, Bytes, NoNul, All, All-append, length, length-append, strcpy_fits, str_eq,
  ◌==◌,
}
use ece.Store.{User, online, admin}
use ece.Database.Listing.{
  spaces, pad, row, row_with_role, add_row, strcat, online_rows, session_rows, role_name,
}

-- A user whose texts are C strings that fit their arrays.
pub record IsListed (u : User) : Type 0 where
  pub name : NoNul u.username
  pub name_fits : length u.username ≤ 16
  pub id : NoNul u.session_id
  pub id_fits : length u.session_id ≤ 19

length-spaces : (n : ℕ) → length (spaces n) ≡ n
length-spaces zero = refl
length-spaces (suc n) = ap suc (length-spaces n)

spaces-NoNul : (n : ℕ) → NoNul (spaces n)
spaces-NoNul zero = tt
spaces-NoNul (suc n) = (omega arith, spaces-NoNul n)

length-pad : (width : ℕ) (s : Bytes) → length (pad width s) ≡ length s + (width - length s)
unfolding pad
length-pad width s =
    omega (arith, length-append s (spaces (width - length s)), length-spaces (width - length s))

pad-NoNul : (width : ℕ) (s : Bytes) → NoNul s → NoNul (pad width s)
unfolding pad
pad-NoNul width s h =
    All-append (λ c. c ≢ 0) s (spaces (width - length s)) h (spaces-NoNul (width - length s))

-- A text that a buffer of `room` bytes takes.
abbrev pub Short : ℕ → Bytes → Type 0
Short room text = NoNul text × (length text ≤ room)

pub row-Short :
    (name id : Bytes)
    → NoNul name
    → length name ≤ 16
    → NoNul id
    → length id ≤ 19
    → Short 38 (row name id)
unfolding row
row-Short name id hn n hi i = (
  All-append (λ c. c ≢ 0) (pad 17 name) _ (pad-NoNul 17 name hn)
      (
        omega arith,
        All-append (λ c. c ≢ 0) (pad 10 id) (b'\n' ∷ []) (pad-NoNul 10 id hi) (omega arith, tt),
      ),
  omega (
    arith,
    length-append (pad 17 name) (b' ' ∷ (pad 10 id ++ b'\n' ∷ [])),
    length-append (pad 10 id) (b'\n' ∷ []),
    length-pad 17 name,
    length-pad 10 id,
  ),
)

pub row_with_role-Short :
    (name id role : Bytes)
    → NoNul name
    → length name ≤ 16
    → NoNul id
    → length id ≤ 19
    → NoNul role
    → length role ≤ 6
    → Short 45 (row_with_role name id role)
unfolding row_with_role
row_with_role-Short name id role hn n hi i hr r = (
  All-append (λ c. c ≢ 0) (pad 17 name) _ (pad-NoNul 17 name hn)
      (
        omega arith,
        All-append (λ c. c ≢ 0) (pad 10 id) _ (pad-NoNul 10 id hi)
            (
              omega arith,
              All-append (λ c. c ≢ 0) (pad 6 role) (b'\n' ∷ []) (pad-NoNul 6 role hr)
                  (omega arith, tt),
            ),
      ),
  omega (
    arith,
    length-append (pad 17 name) (b' ' ∷ (pad 10 id ++ b' ' ∷ (pad 6 role ++ b'\n' ∷ []))),
    length-append (pad 10 id) (b' ' ∷ (pad 6 role ++ b'\n' ∷ [])),
    length-append (pad 6 role) (b'\n' ∷ []),
    length-pad 17 name,
    length-pad 10 id,
    length-pad 6 role,
  ),
)

-- A line that fits is added.
pub add_row-Short :
    (list text : Bytes) (m k : ℕ)
    → Short m list
    → Short k text
    → m + k < 1200
    → (add_row list text ≡ some (list ++ text)) × Short (m + k) (list ++ text)
unfolding add_row strcat
add_row-Short list text m k h t room = (
  rw
      (
        strcpy_fits 1200 text (omega (arith, t.1)),
        strcpy_fits 1200 (list ++ text) (omega (arith, length-append list text, h.1, t.1)),
      )
      refl,
  (All-append (λ c. c ≢ 0) list text h.0 t.0, omega (arith, length-append list text, h.1, t.1)),
)

pub online_rows-Short :
    (us : List User) (list : Bytes) (m : ℕ)
    → All IsListed us
    → Short m list
    → m + 38 * length us < 1200
    → (all : Bytes) × (online_rows list us ≡ some all) × Short (m + 38 * length us) all
unfolding online_rows
online_rows-Short [] list m h l room = (list, refl, (l.0, omega (arith, l.1)))
online_rows-Short (u ∷ us) list m h l room = elim (Bool-cases (u.status == online)) [
  | inl e ↦
      let text = row u.username u.session_id in
      let (added, longer) =
        add_row-Short list text m 38 l
          (row-Short u.username u.session_id h.0.name h.0.name_fits h.0.id h.0.id_fits)
          (omega arith) in
      let (all, run, short) =
        online_rows-Short us (list ++ text) (m + 38) h.1 longer (omega arith) in
      (all, rw (e, added) run, (short.0, omega (arith, short.1)))
  | inr e ↦
      let (all, run, short) = online_rows-Short us list m h.1 l (omega arith) in
      (all, rw e run, (short.0, omega (arith, short.1)))
]

role_name-Short : (r : ℕ) → Short 6 (role_name r)
unfolding role_name
role_name-Short r = elim (Bool-cases (r == admin)) [
  | inl e ↦ rw e (ground arith, omega arith)
  | inr e ↦ rw e (ground arith, omega arith)
]

pub session_rows-Short :
    (id : Bytes) (us : List User) (list : Bytes) (m : ℕ)
    → All IsListed us
    → Short m list
    → m + 45 * length us < 1200
    → (all : Bytes) × (session_rows id list us ≡ some all) × Short (m + 45 * length us) all
unfolding session_rows
session_rows-Short id [] list m h l room = (list, refl, (l.0, omega (arith, l.1)))
session_rows-Short id (u ∷ us) list m h l room = elim (Bool-cases (str_eq u.session_id id)) [
  | inl e ↦
      let role = role_name u.role in
      let text = row_with_role u.username u.session_id role in
      let (added, longer) =
        add_row-Short list text m 45 l
          (row_with_role-Short u.username u.session_id role h.0.name h.0.name_fits h.0.id
            h.0.id_fits (role_name-Short u.role).0 (role_name-Short u.role).1)
          (omega arith) in
      let (all, run, short) =
        session_rows-Short id us (list ++ text) (m + 45) h.1 longer (omega arith) in
      (all, rw (e, added) run, (short.0, omega (arith, short.1)))
  | inr e ↦
      let (all, run, short) = session_rows-Short id us list m h.1 l (omega arith) in
      (all, rw e run, (short.0, omega (arith, short.1)))
]
