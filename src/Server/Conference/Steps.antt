-- ===== src/Server/Conference/Steps.antt =====
-- What the operations of a session do to the conference.
use ece.Base.{
  ℕ, ◌≡◌, refl, ◌∙◌, ap, sym, subst, fun_ext, ◌≢◌, inl, inr, true, false, Bool-cases, Option-cases,
  List, [], ◌∷◌, some, none, arith, Bytes, All, str_eq, str_eq_iff, str_eq_refl, ◌==◌, ==_iff,
  get_elem?, modify,
}
use ece.Store.{User, Server, admin, online, offline, not_in_session}
use ece.Database.{find_user, count_in_session, leave_session}
use ece.Database.Laws.{
  names, Distinct, All-modify, All_at, find_user-names, names-modify, get_elem?-modify_ne,
}
use ece.Database.Run.{Located}
use ece.Server.Session.Join.{join_refusal, join_result, enter}
use ece.Server.Session.Create.{create_result, found_session}
use ece.Server.Session.Leave.{left_users, exit_result, log_out}
use ece.Server.Admin.{refusal}
use ece.Server.Admin.Run.{expel, make_admin, make_user}
use ece.Server.AdminSafety.{refusal-none}
use ece.Server.Invariant.{IsUser, IsValid}
use ece.Server.Safety.{LoggedIn, IsSession, this-IsUser}
use ece.Server.Conference.{
  Seat, outside, seated, seat_of, view, move_to, crown, Alone, Company, Deed, entry, founding,
  leaving, expulsion, handover, Move, turned_away, enters, exists_already, founds, not_inside,
  leaves_nobody, leaves_to_last, leaves_company, expels, hands_over,
}
use ece.Server.Conference.View.{
  view_at, view-modify, view-modify_same, seat-counts, seats-count, count-seat, count-Company,
  view-promote, IsRank,
}

abbrev pub Moves : Deed → List User → List User → Type 0
Moves d us vs = Move d (view us) (view vs)

ranks : (us : List User) → All IsUser us → All IsRank us
ranks [] h = tt
ranks (u ∷ us) h = (h.0.rank, ranks us h.1)

alone : (id : Bytes) (us : List User) → count_in_session id us ≡ 1 → Alone id (view us)
alone id us e name other a b h k = elim (Bool-cases (str_eq name other)) [
  | inl same ↦ (str_eq_iff name other).0 same
  | inr differs ↦ absurd (
      omega
        (arith, e, seats-count id name other a b us (ground (arith, str_eq_iff name other)) h k))
]

module _ (name : Bytes) (s : Server) (i : ℕ) (u : User) (v : IsValid s)
    (l : LoggedIn name s i u) where
  place : IsUser u
  place = this-IsUser name s i u v l

  this_seat : view s.user_list name ≡ seat_of u
  this_seat = view_at name s.user_list i u l.located.found l.located.at

  -- A change of this user alone.
  moved :
      (d : Deed) (f : User → User) (seat : Seat)
      → ((w : User) → (f w).username ≡ w.username)
      → seat_of (f u) ≡ seat
      → Move d (view s.user_list) (move_to name seat (view s.user_list))
      → Moves d s.user_list (modify s.user_list i f)
  moved d f seat keeps e m =
      subst (Move d (view s.user_list))
        (sym (
          view-modify f name s.user_list i u keeps l.located.found l.located.at
          ∙ ap (λ w. move_to name w (view s.user_list)) e))
        m

  pub join-Moves :
      (id : Bytes)
      → IsSession id
      → Moves (entry name id) s.user_list (join_result name id s i u).user_list
  unfolding join_result join_refusal
  join-Moves id h = elim (Option-cases (join_refusal (count_in_session id s.user_list) u)) [
    | inl e ↦
        let (other, b, sits) = count-seat id s.user_list h.proper v.table.distinct (ground arith) in
        let away : seat_of u ≡ outside =
          ground (arith, place.place, str_eq_iff u.session_id not_in_session) in
        let there : seat_of (enter id u) ≡ seated id false =
          ground (arith, place.place, str_eq_iff id not_in_session, h.proper) in
        rw (e, join_result)
          (moved (entry name id) (enter id) (seated id false) (λ w. refl) there
            (enters name other id b (this_seat ∙ away) sits))
    | inr (x, e) ↦ rw (e, join_result) (turned_away name id)
  ]

  pub create-Moves :
      (id : Bytes)
      → IsSession id
      → Moves (founding name id) s.user_list (create_result name id s i u).user_list
  unfolding create_result
  create-Moves id h = elim (Bool-cases (count_in_session id s.user_list == 0)) [
    | inl e ↦
        let there : seat_of (found_session id u) ≡ seated id true =
          ground (arith, str_eq_iff id not_in_session, h.proper) in
        rw (e, create_result)
          (moved (founding name id) (found_session id) (seated id true) (λ w. refl) there
            (founds name id (λ m b q.
              absurd (omega (arith, seat-counts id m b s.user_list q, (==_iff _ _).0 e)))))
    | inr e ↦
        let (other, b, sits) = count-seat id s.user_list h.proper v.table.distinct (ground arith) in
        rw (e, create_result) (exists_already name other id b sits)
  ]

  left_view : view (modify s.user_list i leave_session) ≡ move_to name outside (view s.user_list)
  left_view =
      view-modify leave_session name s.user_list i u (λ w. refl) l.located.found l.located.at
      ∙ ap (λ w. move_to name w (view s.user_list)) (rw (str_eq_refl not_in_session) refl)

  pub leave-Moves :
      u.in_session ≢ offline
      → Moves (leaving name) s.user_list (left_users u.session_id i s.user_list)
  unfolding left_users
  leave-Moves inside =
      let id = u.session_id in
      let rest = modify s.user_list i leave_session in
      let proper : id ≢ not_in_session = ground (arith, place.place, inside) in
      let here : seat_of u ≡ seated id (u.role == admin) =
        ground (arith, str_eq_iff u.session_id not_in_session, proper) in
      let sits = this_seat ∙ here in
      let distinct : Distinct (names rest) =
        subst Distinct (sym (names-modify leave_session s.user_list i (λ w. refl)))
          v.table.distinct in
      elim (Bool-cases (count_in_session id rest == 1)) [
        | inl e ↦
            let (last, a, stays) = count-seat id rest proper distinct (ground arith) in
            rw e (
              subst (Move (leaving name) (view s.user_list))
                (sym (
                  fun_ext (λ other.
                    view-promote id rest other proper (
                      All-modify leave_session IsRank s.user_list i
                        (ranks s.user_list v.table.users) (λ w a. inl refl))
                    ∙ ap (λ c. crown id (c other)) left_view)))
                (leaves_to_last name last id (u.role == admin) a sits
                  (subst (λ c. c last ≡ seated id a) left_view stays)
                  (subst (Alone id) left_view (alone id rest ((==_iff _ _).0 e)))))
        | inr e ↦ rw e (
            subst (Move (leaving name) (view s.user_list)) (sym left_view)
              (elim (Bool-cases (count_in_session id rest == 0)) [
                | inl z ↦ leaves_nobody name id (u.role == admin) sits (λ m b q. absurd (
                    omega (
                      arith,
                      seat-counts id m b rest (subst (λ c. c m ≡ seated id b) (sym left_view) q),
                      (==_iff _ _).0 z,
                    )))
                | inr z ↦ leaves_company name id (u.role == admin) sits (
                    subst (Company id) left_view
                      (count-Company id rest proper distinct (ground arith)))
              ]))
      ]

  -- Logging out shows no more than leaving.
  pub exit-Moves : Moves (leaving name) s.user_list (exit_result s i u).user_list
  unfolding exit_result
  exit-Moves = elim (Bool-cases (u.in_session == online)) [
    | inl e ↦
        rw (e, exit_result)
          (subst (Move (leaving name) (view s.user_list))
            (sym (
              view-modify_same log_out (left_users u.session_id i s.user_list) i (λ w. refl)
                (λ w. refl)))
            (leave-Moves (ground arith)))
    | inr e ↦
        rw (e, exit_result)
          (subst (Move (leaving name) (view s.user_list))
            (sym (view-modify_same log_out s.user_list i (λ w. refl) (λ w. refl)))
            (not_inside name
              (this_seat ∙ ground (arith, place.place, str_eq_iff u.session_id not_in_session))))
  ]

-- `v`, at `j`, does something to `t`, at `i`, that is not refused.
module _ (sender target : Bytes) (s : Server) (j : ℕ) (v : User) (w : IsValid s)
    (l : LoggedIn sender s j v) (i : ℕ) (t : User) (k : Located target s i t) (apart : i ≢ j)
    (allowed : refusal t v ≡ none) where
  target_seat : view s.user_list target ≡ seated v.session_id false
  target_seat =
      let (present, inside, same, plain) = refusal-none t v allowed in
      let valid : IsUser t = All_at IsUser s.user_list i w.table.users k.at in
      view_at target s.user_list i t k.found k.at
      ∙ ground (arith, valid.place, inside, same, plain, str_eq_iff t.session_id not_in_session)

  proper_session : v.session_id ≢ not_in_session
  proper_session =
      let (present, inside, same, plain) = refusal-none t v allowed in
      let valid : IsUser t = All_at IsUser s.user_list i w.table.users k.at in
      ground (arith, valid.place, inside, same)

  sender_seat : view s.user_list sender ≡ seated v.session_id (v.role == admin)
  sender_seat =
      view_at sender s.user_list j v l.located.found l.located.at
      ∙ ground (arith, proper_session, str_eq_iff v.session_id not_in_session)

  pub kick-Moves : Moves (expulsion sender target) s.user_list (modify s.user_list i expel)
  kick-Moves =
      subst (Move (expulsion sender target) (view s.user_list))
        (sym (
          view-modify expel target s.user_list i t (λ x. refl) k.found k.at
          ∙ ap (λ x. move_to target x (view s.user_list)) (rw (str_eq_refl not_in_session) refl)))
        (expels sender target v.session_id (v.role == admin) sender_seat target_seat)

  pub promote-Moves :
      v.role ≡ admin
      → Moves
          (handover sender target)
          s.user_list
          (modify (modify s.user_list i make_admin) j make_user)
  promote-Moves boss =
      let (present, inside, same, plain) = refusal-none t v allowed in
      let middle = modify s.user_list i make_admin in
      let still : find_user sender middle ≡ some j =
        find_user-names sender middle s.user_list
          (names-modify make_admin s.user_list i (λ x. refl))
        ∙ l.located.found in
      let there : get_elem? middle j ≡ some v =
        get_elem?-modify_ne make_admin s.user_list i j apart ∙ l.located.at in
      let up : seat_of (make_admin t) ≡ seated v.session_id true =
        ground (arith, proper_session, same, str_eq_iff t.session_id not_in_session) in
      let down : seat_of (make_user v) ≡ seated v.session_id false =
        ground (arith, proper_session, str_eq_iff v.session_id not_in_session) in
      let first : view middle ≡ move_to target (seated v.session_id true) (view s.user_list) =
        view-modify make_admin target s.user_list i t (λ x. refl) k.found k.at
        ∙ ap (λ x. move_to target x (view s.user_list)) up in
      let second : view (modify middle j make_user)
          ≡ move_to sender (seated v.session_id false) (view middle) =
        view-modify make_user sender middle j v (λ x. refl) still there
        ∙ ap (λ x. move_to sender x (view middle)) down in
      let rank : seated v.session_id (v.role == admin) ≡ seated v.session_id true = rw boss refl in
      subst (Move (handover sender target) (view s.user_list))
        (sym (second ∙ ap (λ c. move_to sender (seated v.session_id false) c) first))
        (hands_over sender target v.session_id (sender_seat ∙ rank) target_seat)
