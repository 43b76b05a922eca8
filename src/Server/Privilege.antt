-- ===== src/Server/Privilege.antt =====
-- server_side_promote_user and server_side_kick_user do not look at the role of the sender.
use ece.Base.{ℕ, suc, ◌≡◌, ◌∙◌, ◌≢◌, none, arith, Bytes, modify, str_eq_refl}
use ece.Message.RoundTrip.{IsName}
use ece.Store.{User, Server, ok, user}
use ece.Store.Laws.{IsText}
use ece.Database.Laws.{get_elem?-modify_ne}
use ece.Database.Run.{Ready, Located}
use ece.Server.Admin.{refusal, server_side_promote_user}
use ece.Server.Admin.Run.{make_admin, make_user, promote_result, promote_allowed}
use ece.Server.Invariant.{count_admins}
use ece.Server.Invariant.Table.{count_admins-modify}
use ece.Server.AdminSafety.{refusal-none}

module _ (sender target : Bytes) (s : Server) (j : ℕ) (v : User) (r : Ready s)
    (l : Located sender s j v) (n : IsName sender) (i : ℕ) (t : User) (k : Located target s i t)
    (apart : i ≢ j) (allowed : refusal t v ≡ none) (id : IsText v.session_id)
    (m : IsText t.username) where
  one_more :
      v.role ≡ user
      → count_admins v.session_id (modify (modify s.user_list i make_admin) j make_user)
        ≡ suc (count_admins v.session_id s.user_list)
  one_more plain =
      let (present, inside, same, target_plain) = refusal-none t v allowed in
      ground (
        arith,
        same,
        target_plain,
        str_eq_refl v.session_id,
        count_admins-modify v.session_id make_admin s.user_list i t k.at,
        count_admins-modify v.session_id make_user (modify s.user_list i make_admin) j v
            (get_elem?-modify_ne make_admin s.user_list i j apart ∙ l.at),
      )

  -- A user who is not the admin and asks, with the mutexes free, for the promotion of another user
  -- in the table whom no test refuses is obeyed, and the session has one admin more than before.
  pub promote_by_user :
      v.role ≡ user
      → (w : Server) × (server_side_promote_user sender target s ≡ ok tt w)
        × (count_admins v.session_id w.user_list ≡ suc (count_admins v.session_id s.user_list))
  promote_by_user plain = (
    promote_result sender s i j t v,
    promote_allowed sender target s j v r l n i t k apart allowed id m,
    one_more plain,
  )
