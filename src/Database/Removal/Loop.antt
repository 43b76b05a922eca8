-- ===== src/Database/Removal/Loop.antt =====
-- The loops of remove_user_by_name_in_database against a list without one user.
use ece.Base.{
  ℕ, suc, ◌+◌, ◌-◌, ◌≡◌, refl, ◌∙◌, ap, sym, subst, List, [], ◌∷◌, ◌++◌, append_assoc, append-nil,
  some, arith, Bytes, length, length-append, get_elem?, modify, take, str_eq, if◌then◌else◌,
  Bool-cases, Option-cases, inl, inr,
}
use native.Mathlib.Nat.{add-zero}
use ece.Store.{User, zero_user}
use ece.Database.{find_user}
use ece.Database.Removal.{move_down, close_gap, remove_at}

-- The table without the first user of that name.
unfoldable pub without : Bytes → List User → List User
without name [] = []
without name (u ∷ us) = if str_eq u.username name then us else u ∷ without name us

at_front :
    (before : List User) (u : User) (us : List User)
    → get_elem? (before ++ u ∷ us) (length before) ≡ some u
at_front [] u us = refl
at_front (b ∷ before) u us = at_front before u us

modify_front :
    (f : User → User) (before : List User) (u : User) (us : List User)
    → modify (before ++ u ∷ us) (length before) f ≡ before ++ f u ∷ us
modify_front f [] u us = refl
modify_front f (b ∷ before) u us = ap (λ r. b ∷ r) (modify_front f before u us)

take_front : (before rest : List User) → take (length before) (before ++ rest) ≡ before
take_front [] rest = refl
take_front (b ∷ before) rest = ap (λ r. b ∷ r) (take_front before rest)

move_down-front :
    (before : List User) (u v : User) (vs : List User)
    → move_down (length before) (before ++ u ∷ v ∷ vs) ≡ (before ++ v ∷ []) ++ v ∷ vs
unfolding move_down
move_down-front before u v vs =
    let next : get_elem? (before ++ u ∷ v ∷ vs) (length before + 1) ≡ some v =
      subst (λ n. get_elem? (before ++ u ∷ v ∷ vs) n ≡ some v) (length-append before (u ∷ []))
        (subst (λ l. get_elem? l (length (before ++ u ∷ [])) ≡ some v)
          (append_assoc before (u ∷ []) (v ∷ vs)) (at_front (before ++ u ∷ []) v vs)) in
    rw (next, move_down)
      (modify_front (λ old. v) before u (v ∷ vs) ∙ sym (append_assoc before (v ∷ []) (v ∷ vs)))

close_gap-front :
    (behind before : List User) (u : User)
    → take
        (length before + length behind)
        (close_gap (length behind) (length before) (before ++ u ∷ behind))
      ≡ before ++ behind
unfolding close_gap
close_gap-front [] before u = rw (add-zero, append-nil before) (take_front before (u ∷ []))
close_gap-front (v ∷ vs) before u =
    let longer : length (before ++ v ∷ []) ≡ length before + 1 = length-append before (v ∷ []) in
    let count : length before + suc (length vs) ≡ length (before ++ v ∷ []) + length vs =
      omega (arith, longer) in
    let gap : close_gap (suc (length vs)) (length before) (before ++ u ∷ v ∷ vs)
        ≡ close_gap (length vs) (length (before ++ v ∷ [])) ((before ++ v ∷ []) ++ v ∷ vs) =
      ap (close_gap (length vs) (length before + 1)) (move_down-front before u v vs)
      ∙ ap (λ n. close_gap (length vs) n ((before ++ v ∷ []) ++ v ∷ vs)) (sym longer) in
    ap (λ n. take n (close_gap (suc (length vs)) (length before) (before ++ u ∷ v ∷ vs))) count
    ∙ ap (take (length (before ++ v ∷ []) + length vs)) gap
    ∙ close_gap-front vs (before ++ v ∷ []) v
    ∙ append_assoc before (v ∷ []) vs

-- The first user of a name, with what stands before and behind.
split_at :
    (name : Bytes) (us : List User) (i : ℕ)
    → find_user name us ≡ some i
    → (before : List User) × (u : User) × (behind : List User) × (us ≡ before ++ u ∷ behind)
      × (i ≡ length before)
      × (without name us ≡ before ++ behind)
unfolding find_user without
split_at name [] i h = absurd (cc)
split_at name (u ∷ us) i h = elim (Bool-cases (str_eq u.username name)) [
  | inl e ↦ ([], u, us, refl, ground arith, rw e refl)
  | inr e ↦ elim (Option-cases (find_user name us)) [
    | inl none' ↦ absurd (ground arith)
    | inr (j, found) ↦
        let (before, v, behind, parts, place, rest) = split_at name us j found in
        (u ∷ before, v, behind, ap (λ r. u ∷ r) parts, ground arith, rw e (ap (λ r. u ∷ r) rest))
  ]
]

remove_at-front :
    (before : List User) (u : User) (behind : List User)
    → remove_at (length before) (before ++ u ∷ behind) ≡ before ++ behind
unfolding remove_at
remove_at-front before u behind =
    let cleared = before ++ zero_user ∷ behind in
    let size = length-append before (u ∷ behind) in
    let count : length (before ++ u ∷ behind) - 1 ≡ length before + length behind =
      omega (arith, size) in
    let rounds : length (before ++ u ∷ behind) - 1 - length before ≡ length behind =
      omega (arith, size) in
    ap
      (λ l.
        take (length (before ++ u ∷ behind) - 1)
          (close_gap (length (before ++ u ∷ behind) - 1 - length before) (length before) l))
      (modify_front (λ old. zero_user) before u behind)
    ∙ ap (λ n. take (length (before ++ u ∷ behind) - 1) (close_gap n (length before) cleared))
        rounds
    ∙ ap (λ n. take n (close_gap (length behind) (length before) cleared)) count
    ∙ close_gap-front behind before zero_user

pub remove_at-without :
    (name : Bytes) (us : List User) (i : ℕ)
    → find_user name us ≡ some i
    → remove_at i us ≡ without name us
remove_at-without name us i h =
    let (before, u, behind, parts, place, rest) = split_at name us i h in
    ap (λ j. remove_at j us) place
    ∙ ap (remove_at (length before)) parts
    ∙ remove_at-front before u behind
    ∙ sym rest
