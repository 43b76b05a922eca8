-- ===== src/Server/Threads/Kept.antt =====
-- What one request leaves alone: the entries of the users that it is not about.
use ece.Base.{
  ℕ, zero, suc, ◌≡◌, refl, ◌∙◌, ap, sym, subst, List, [], ◌∷◌, ◌++◌, map, some, arith, Bytes,
  get_elem?, modify, str_eq_iff, Option-cases,
}
use mathlib.Core.Option.{some-injective}
use native.Mathlib.Decide.{ℕ_discrete}
use ece.Store.{User, offline}
use ece.Database.{find_user}
use ece.Database.Laws.{
  names, find_user_sound, find_user-names, names-modify, get_elem?-modify_self, get_elem?-modify_ne,
}

-- The first user of a name keeps the place; those in `A` keep the status, and those in `B` do not come
-- into a session.
abbrev pub Kept : (A B : Bytes → Type 0) → List User → List User → Type 0
Kept A B us vs =
    (m : Bytes) (i : ℕ) (u : User)
    → find_user m us ≡ some i
    → get_elem? us i ≡ some u
    → (v : User) × (find_user m vs ≡ some i)
      × (get_elem? vs i ≡ some v)
      × (A m → v.status ≡ u.status)
      × (B m → u.in_session ≡ offline → v.in_session ≡ offline)

pub found_name :
    (m : Bytes) (us : List User) (i : ℕ) (u : User)
    → find_user m us ≡ some i
    → get_elem? us i ≡ some u
    → u.username ≡ m
found_name m us i u found at =
    let (w, e, n) = find_user_sound m us i found in
    let same : w ≡ u = some-injective _ _ (sym e ∙ at) in subst (λ z. z.username ≡ m) same n

names-map :
    (f : User → User) (us : List User)
    → ((v : User) → (f v).username ≡ v.username)
    → names (map f us) ≡ names us
names-map f [] same = refl
names-map f (v ∷ us) same = cc (same v, names-map f us same)

get_elem?-map :
    (f : User → User) (us : List User) (i : ℕ) (u : User)
    → get_elem? us i ≡ some u
    → get_elem? (map f us) i ≡ some (f u)
get_elem?-map f [] i u h = absurd (cc)
get_elem?-map f (v ∷ us) zero u h = ap some (ap f (some-injective _ _ h))
get_elem?-map f (v ∷ us) (suc i) u h = get_elem?-map f us i u h

find_user-front :
    (m : Bytes) (us vs : List User) (i : ℕ)
    → find_user m us ≡ some i
    → find_user m (us ++ vs) ≡ some i
unfolding find_user
find_user-front m [] vs i h = absurd (cc)
find_user-front m (u ∷ us) vs zero h =
    ground (arith, str_eq_iff u.username m, Option-cases (find_user m us))
find_user-front m (u ∷ us) vs (suc i) h =
    ground (arith, find_user-front m us vs i, Option-cases (find_user m us))

get_elem?-front :
    (us vs : List User) (i : ℕ) (u : User)
    → get_elem? us i ≡ some u
    → get_elem? (us ++ vs) i ≡ some u
get_elem?-front [] vs i u h = absurd (cc)
get_elem?-front (v ∷ us) vs zero u h = h
get_elem?-front (v ∷ us) vs (suc i) u h = get_elem?-front us vs i u h

module _ (A B : Bytes → Type 0) where
  pub Kept-refl : (us : List User) → Kept A B us us
  Kept-refl us m i u found at = (u, found, at, λ a. refl, λ b h. h)

  pub Kept-trans : (us vs ws : List User) → Kept A B us vs → Kept A B vs ws → Kept A B us ws
  Kept-trans us vs ws h k m i u found at =
      let (v, found_v, at_v, status_v, outside_v) = h m i u found at in
      let (w, found_w, at_w, status_w, outside_w) = k m i v found_v at_v in
      (w, found_w, at_w, λ a. status_w a ∙ status_v a, λ b out. outside_w b (outside_v b out))

  pub Kept-modify :
      (f : User → User) (us : List User) (j : ℕ)
      → ((v : User) → (f v).username ≡ v.username)
      → ((v : User)
          → get_elem? us j ≡ some v
          → (A v.username → (f v).status ≡ v.status)
            × (B v.username → v.in_session ≡ offline → (f v).in_session ≡ offline))
      → Kept A B us (modify us j f)
  Kept-modify f us j same h m i u found at =
      let named = found_name m us i u found at in
      let still = find_user-names m (modify us j f) us (names-modify f us j same) ∙ found in
      elim (ℕ_discrete j i) [
        | yes e ↦
            let (status, outside) = h u (subst (λ z. get_elem? us z ≡ some u) (sym e) at) in
            (
              f u,
              still,
              subst (λ z. get_elem? (modify us z f) i ≡ some (f u)) (sym e)
                  (get_elem?-modify_self f us i at),
              λ a. status (subst A (sym named) a),
              λ b. outside (subst B (sym named) b),
            )
        | no n ↦ (u, still, get_elem?-modify_ne f us j i n ∙ at, λ a. refl, λ b out. out)
      ]

  -- A change of roles.
  pub Kept-map :
      (f : User → User) (us : List User)
      → ((v : User) → (f v).username ≡ v.username)
      → ((v : User) → (f v).status ≡ v.status)
      → ((v : User) → (f v).in_session ≡ v.in_session)
      → Kept A B us (map f us)
  Kept-map f us same status place m i u found at = (
    f u,
    find_user-names m (map f us) us (names-map f us same) ∙ found,
    get_elem?-map f us i u at,
    λ a. status u,
    λ b out. place u ∙ out,
  )

  pub Kept-append : (us vs : List User) → Kept A B us (us ++ vs)
  Kept-append us vs m i u found at =
      (u, find_user-front m us vs i found, get_elem?-front us vs i u at, λ a. refl, λ b out. out)
