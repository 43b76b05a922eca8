-- ===== src/Server/Login/Verify.antt =====
-- verify_login against what it promises.
use ece.Base.{
  ℕ, ◌≡◌, refl, ◌∙◌, ap, sym, ◌≢◌, ◌↔◌, inl, inr, none, if◌then◌else◌, Option-cases, arith, Bytes,
  ◌==◌, str_eq, str_eq_iff,
}
use ece.Store.{User, Server, ok, online}
use ece.Store.Laws.{bind_ok, deref-run}
use ece.Database.{find_user}
use ece.Database.Laws.{find_user_sound}
use ece.Database.Run.{Located, database_search_user-run}
use ece.Server.Login.{
  LoginResult, success_login, username_error, password_error, already_login, verify_login,
}

-- The answer for the user that the search finds.
verdict : Bytes → User → LoginResult
verdict word u =
    if str_eq u.password word
    then (if u.status == online then already_login else success_login)
    else password_error

verdict-success :
    (word : Bytes) (u : User)
    → verdict word u ≡ success_login
    → (u.password ≡ word) × (u.status ≢ online)
unfolding verdict
verdict-success word u h = ground (arith, str_eq_iff u.password word)

success-verdict :
    (word : Bytes) (u : User)
    → u.password ≡ word
    → u.status ≢ online
    → verdict word u ≡ success_login
unfolding verdict
success-verdict word u w n = ground (arith, str_eq_iff u.password word)

ok-injective : {r r' : LoginResult} {s t : Server} → ok r s ≡ ok r' t → r ≡ r'
ok-injective h = cc

not_found : {s t : Server} → ok username_error s ≡ ok success_login t → ⊥
not_found h = cc

module _ (name word : Bytes) (s : Server) where
  verify_missing :
      find_user name s.user_list ≡ none → verify_login name word s ≡ ok username_error s
  unfolding verify_login
  verify_missing h = bind_ok _ _ (database_search_user-run name s) (rw h refl)

  verify_found :
      (i : ℕ) (u : User) → Located name s i u → verify_login name word s ≡ ok (verdict word u) s
  unfolding verify_login verdict
  verify_found i u l =
      bind_ok _ _ (database_search_user-run name s)
        (rw l.found (bind_ok _ _ (deref-run i s l.at) refl))

  -- verify_login answers SUCCESS_LOGIN, and changes nothing, exactly when the first user of that
  -- name has that password and is not online.
  pub verify_login-success_iff :
      (verify_login name word s ≡ ok success_login s)
      ↔ ((i : ℕ) × (u : User) × Located name s i u × (u.password ≡ word) × (u.status ≢ online))
  verify_login-success_iff = (forth, back)
    where
      forth :
          verify_login name word s ≡ ok success_login s
          → (i : ℕ) × (u : User) × Located name s i u × (u.password ≡ word) × (u.status ≢ online)
      forth h = elim (Option-cases (find_user name s.user_list)) [
        | inl e ↦ absurd (not_found (sym (verify_missing e) ∙ h))
        | inr (i, e) ↦
            let (u, at, named) = find_user_sound name s.user_list i e in
            let l : Located name s i u = record { found = e; at = at } in
            let (same, away) =
              verdict-success word u (ok-injective (sym (verify_found i u l) ∙ h)) in
            (i, u, l, same, away)
      ]

      back :
          ((i : ℕ) × (u : User) × Located name s i u × (u.password ≡ word) × (u.status ≢ online))
          → verify_login name word s ≡ ok success_login s
      back (i, u, l, w, n) = verify_found i u l ∙ ap (λ r. ok r s) (success-verdict word u w n)
