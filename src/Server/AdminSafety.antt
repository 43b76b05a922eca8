-- ===== src/Server/AdminSafety.antt =====
-- server.c: kick and promote on the valid states of the table.
use ece.Base.{
  ℕ, ◌≡◌, refl, ◌∙◌, ◌≢◌, inl, inr, some, none, Option-cases, arith, Bytes, modify, length-modify,
  str_eq_iff,
}
use ece.Store.{User, Server, ok, offline, admin}
use ece.Store.Laws.{IsText}
use ece.Database.{find_user}
use ece.Database.Laws.{find_user_sound, All_at}
use ece.Database.Run.{Located}
use ece.Server.Admin.{refusal, server_side_kick_user, server_side_promote_user}
use ece.Server.Admin.Run.{
  expel, make_admin, make_user, kick_result, promote_result, kick_missing, kick_refused,
  kick_allowed, promote_missing, promote_refused, promote_allowed,
}
use ece.Server.Invariant.{IsUser, IsValid}
use ece.Server.Invariant.Table.{expel-IsTable}
use ece.Server.Invariant.Roles.{hand_over-IsTable}
use ece.Server.Safety.{LoggedIn, with_table, this-IsUser, this_name}

-- What an allowed request says of its target and its sender.
pub refusal-none :
    (t v : User)
    → refusal t v ≡ none
    → (t.status ≢ offline)
      × (t.in_session ≢ offline)
      × (t.session_id ≡ v.session_id)
      × (t.role ≢ admin)
unfolding refusal
refusal-none t v h = ground (arith, str_eq_iff t.session_id v.session_id)

module _ (sender target : Bytes) (s : Server) (j : ℕ) (v : User) (w : IsValid s)
    (l : LoggedIn sender s j v) (others : sender ≢ target) where
  boss-IsUser : IsUser v
  boss-IsUser = this-IsUser sender s j v w l

  pub Located-target :
      (i : ℕ) → find_user target s.user_list ≡ some i → (t : User) × Located target s i t × (i ≢ j)
  Located-target i e =
      let (t, at, named) = find_user_sound target s.user_list i e in
      let (z, at_z, named_z) = find_user_sound sender s.user_list j l.located.found in
      (
        t,
        record { found = e; at = at },
        λ same. others (ground (arith, at, at_z, named, named_z, same)),
      )

  module _ (i : ℕ) (t : User) (k : Located target s i t) (apart : i ≢ j)
      (allowed : refusal t v ≡ none) where
    target-IsUser : IsUser t
    target-IsUser = All_at IsUser s.user_list i w.table.users k.at

    kick_result-IsValid : IsValid (kick_result sender s i t v)
    kick_result-IsValid =
        with_table s (modify s.user_list i expel) _ w
          (expel-IsTable s.user_list i t w.table k.at
            (ground (arith, target-IsUser.rank, refusal-none t v allowed)))
          (length-modify s.user_list i expel)

    promote_result-IsValid : v.role ≡ admin → IsValid (promote_result sender s i j t v)
    promote_result-IsValid boss =
        with_table s (modify (modify s.user_list i make_admin) j make_user) _ w
          (let (present, inside, same, plain) = refusal-none t v allowed in
            hand_over-IsTable s.user_list i t w.table k.at j v l.located.at apart same inside plain
              boss)
          (length-modify (modify s.user_list i make_admin) j make_user
            ∙ length-modify s.user_list i make_admin)

    pub target-IsText : IsText t.username
    target-IsText = (target-IsUser.name.no_nul, omega (arith, target-IsUser.name.fits))

  pub session-IsText : IsText v.session_id
  session-IsText = (boss-IsUser.id_text, omega (arith, boss-IsUser.id_fits))

  -- A kick of a target other than the sender, who is logged in at a valid state, returns and
  -- leaves a valid state, whether it is refused or carried out.
  pub server_side_kick_user-IsValid :
      (t : Server) × (server_side_kick_user sender target s ≡ ok tt t) × IsValid t
  server_side_kick_user-IsValid = elim (Option-cases (find_user target s.user_list)) [
    | inl e ↦ (
      _,
      kick_missing sender target s j v w.ready l.located (this_name sender s j v w l) e,
      with_table s s.user_list _ w w.table refl,
    )
    | inr (i, e) ↦
        let (t, k, apart) = Located-target i e in
        elim (Option-cases (refusal t v)) [
          | inl h ↦ (
            _,
            kick_allowed sender target s j v w.ready l.located (this_name sender s j v w l) i t k
                apart h session-IsText (target-IsText i t k apart h),
            kick_result-IsValid i t k apart h,
          )
          | inr (x, h) ↦ (
            _,
            kick_refused sender target s j v w.ready l.located (this_name sender s j v w l) i t k x
                h,
            with_table s s.user_list _ w w.table refl,
          )
        ]
  ]

  -- A promotion that an admin who is logged in asks for, of a target other than themselves,
  -- returns and leaves a valid state, whether it is refused or carried out; a session still has at
  -- most one admin.
  pub server_side_promote_user-IsValid :
      v.role ≡ admin
      → (t : Server) × (server_side_promote_user sender target s ≡ ok tt t) × IsValid t
  server_side_promote_user-IsValid boss = elim (Option-cases (find_user target s.user_list)) [
    | inl e ↦ (
      _,
      promote_missing sender target s j v w.ready l.located (this_name sender s j v w l) e,
      with_table s s.user_list _ w w.table refl,
    )
    | inr (i, e) ↦
        let (t, k, apart) = Located-target i e in
        elim (Option-cases (refusal t v)) [
          | inl h ↦ (
            _,
            promote_allowed sender target s j v w.ready l.located (this_name sender s j v w l) i t k
                apart h session-IsText (target-IsText i t k apart h),
            promote_result-IsValid i t k apart h boss,
          )
          | inr (x, h) ↦ (
            _,
            promote_refused sender target s j v w.ready l.located (this_name sender s j v w l) i t k
                x h,
            with_table s s.user_list _ w w.table refl,
          )
        ]
  ]
