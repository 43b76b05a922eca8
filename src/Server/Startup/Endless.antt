-- ===== src/Server/Startup/Endless.antt =====
-- A database file that set_up_database does not come to the end of.
use ece.Base.{
  ℕ, zero, suc, ◌+◌, ◌≡◌, refl, ◌∙◌, ap, sym, ◌≤◌, ◌<◌, ◌≢◌, inl, inr, false, List, [], ◌∷◌, ◌++◌,
  append_assoc, Option, none, some, Option-cases, arith, Bytes, All, length, length-append, c_str,
  c_str-NoNul, str_eq_refl, is_space, skip_spaces, ==_ne,
}
use ece.Store.{Server, ok, lift, overflow, rw as rw_mutex}
use ece.Store.Laws.{bind_ok}
use ece.Database.{find_user, user_database_init, user_database_add_user, max_user_count}
use ece.Database.Laws.{find_user-new}
use ece.Server.Login.Register.{add_user_new, add_user_taken}
use ece.Server.Startup.{
  Scanned, loaded_user, read_entries, set_up_database, scan_entry, literals, at_end,
}
use ece.Server.Startup.Scan.{Entry, IsEntry, entry, appended, scan_entry-front}
use ece.Server.Startup.RoundTrip.{loaded, loaded-Fits, with_users}

-- The entries, and a line behind them that starts with the byte `c`.
abbrev pub spoiled : List Entry → ℕ → Bytes → Bytes
spoiled [] c rest = c ∷ rest
spoiled (e ∷ es) c rest = entry e ++ (appended es ++ b'\n' ∷ c ∷ rest)

-- What fscanf leaves of a line.
abbrev found_entry : Entry → Bytes → Scanned
found_entry e left = record {
  end_of_file = false;
  username = some e.0;
  password = some e.1;
  rest = left;
}

module _ (c : ℕ) (rest : Bytes) (solid : is_space c ≡ false) (unquoted : c ≢ b'"') where
  skip_to_spoiled :
      (es : List Entry) → skip_spaces (appended es ++ b'\n' ∷ c ∷ rest) ≡ spoiled es c rest
  unfolding skip_spaces
  skip_to_spoiled [] = rw solid refl
  skip_to_spoiled (e ∷ es) = append_assoc (entry e) (appended es) (b'\n' ∷ c ∷ rest)

  -- fscanf stays where it is, and keeps both arrays.
  scan_spoiled :
      (username password : Option Bytes)
      → scan_entry username password (c ∷ rest)
        ≡ some (record {
          end_of_file = false;
          username = username;
          password = password;
          rest = c ∷ rest;
        })
  unfolding scan_entry literals at_end
  scan_spoiled username password = rw (==_ne b'"' c (λ e. unquoted (sym e))) refl

  add_loaded :
      (e : Entry) (s : Server) {code : ℕ} {t : Server}
      → IsEntry e
      → user_database_add_user (loaded e) rw_mutex s ≡ ok code t
      → user_database_add_user (loaded_user (c_str e.0) (c_str e.1)) rw_mutex s ≡ ok code t
  add_loaded e s h run =
      ap (λ n. user_database_add_user (loaded_user n (c_str e.1)) rw_mutex s)
        (c_str-NoNul e.0 h.name.no_nul)
      ∙ ap (λ w. user_database_add_user (loaded_user e.0 w) rw_mutex s)
          (c_str-NoNul e.1 h.word.no_nul)
      ∙ run

  scanned :
      (e : Entry) (es : List Entry) (username password : Option Bytes) (s : Server)
      → IsEntry e
      → lift overflow (scan_entry username password (spoiled (e ∷ es) c rest)) s
        ≡ ok (found_entry e (spoiled es c rest)) s
  scanned e es username password s h =
      rw
        (
          scan_entry-front e (appended es ++ b'\n' ∷ c ∷ rest) username password h,
          skip_to_spoiled es,
        )
        refl

  alone : (e : Entry) → find_user e.0 (loaded e ∷ []) ≡ some 0
  unfolding find_user
  alone e = rw (str_eq_refl e.0) refl

  never_ends :
      (fuel : ℕ) (es : List Entry) (last : Entry) (i : ℕ) (s : Server)
      → s.rw_mutex ≡ false
      → IsEntry last
      → All IsEntry es
      → find_user last.0 s.user_list ≡ some i
      → length s.user_list + length es ≤ s.capacity
      → s.capacity < max_user_count
      → (t : Server) × (read_entries fuel (some last.0) (some last.1) (spoiled es c rest) s
          ≡ ok false t)
  unfolding read_entries
  never_ends zero es last i s free h hs found room few = (s, refl)
  never_ends (suc fuel) [] last i s free h hs found room few =
      let (t, run) = never_ends fuel [] last i s free h hs found room few in
      (
        t,
        bind_ok _ _ {t = s} {a = found_entry last (c ∷ rest)}
            (rw (scan_spoiled (some last.0) (some last.1)) refl)
            (bind_ok _ _ {t = s} {a = last.0} refl (
              bind_ok _ _ {t = s} {a = last.1} refl (
                bind_ok _ _
                  (add_loaded last s h (add_user_taken (loaded last) s free i (omega arith) found))
                  run))),
      )
  never_ends (suc fuel) (e ∷ es) last i s free h hs found room few =
      elim (Option-cases (find_user e.0 s.user_list)) [
        | inl fresh ↦
            let next = with_users (s.user_list ++ loaded e ∷ []) s in
            let (t, run) =
              never_ends fuel es e (length s.user_list) next free hs.0 hs.1
                (find_user-new e.0 s.user_list (loaded e) fresh refl)
                (omega (arith, length-append s.user_list (loaded e ∷ []))) few in
            (
              t,
              bind_ok _ _ {a = found_entry e (spoiled es c rest)}
                  (scanned e es (some last.0) (some last.1) s hs.0)
                  (bind_ok _ _ {t = s} {a = e.0} refl (
                    bind_ok _ _ {t = s} {a = e.1} refl (
                      bind_ok _ _ {t = next}
                        (add_loaded e s hs.0 (
                          add_user_new (loaded e) s free (omega arith) fresh (loaded-Fits e hs.0)
                            (omega arith)))
                        run))),
            )
        | inr (j, taken) ↦
            let (t, run) = never_ends fuel es e j s free hs.0 hs.1 taken (omega arith) few in
            (
              t,
              bind_ok _ _ {a = found_entry e (spoiled es c rest)}
                  (scanned e es (some last.0) (some last.1) s hs.0)
                  (bind_ok _ _ {t = s} {a = e.0} refl (
                    bind_ok _ _ {t = s} {a = e.1} refl (
                      bind_ok _ _
                        (add_loaded e s hs.0
                          (add_user_taken (loaded e) s free j (omega arith) taken))
                        run))),
            )
      ]

  -- The database file starts with an entry (a name and a password of 1 to 16 bytes without NULs,
  -- quotes and bars), at most 15 more follow, and then a line that starts neither with a quote nor
  -- with white space: however many rounds the loop of set_up_database is given, it does not come
  -- to the end of the file.
  pub set_up_database-endless :
      (fuel : ℕ) (first : Entry) (es : List Entry)
      → All IsEntry (first ∷ es)
      → length es ≤ 15
      → (t : Server) × (set_up_database fuel
            (user_database_init (some (spoiled (first ∷ es) c rest)))
          ≡ ok false t)
  unfolding set_up_database user_database_init read_entries
  set_up_database-endless zero first es h few = (_, refl)
  set_up_database-endless (suc fuel) first es h few =
      let s = user_database_init (some (spoiled (first ∷ es) c rest)) in
      let next = with_users (loaded first ∷ []) s in
      let (t, run) =
        never_ends fuel es first 0 next refl h.0 h.1 (alone first) (omega arith) (omega arith) in
      (
        t,
        bind_ok _ _ {a = found_entry first (spoiled es c rest)} (scanned first es none none s h.0) (
            bind_ok _ _ {t = s} {a = first.0} refl (
              bind_ok _ _ {t = s} {a = first.1} refl (
                bind_ok _ _ {t = next}
                  (add_loaded first s h.0 (
                    add_user_new (loaded first) s refl (omega arith) empty (loaded-Fits first h.0)
                      (omega arith)))
                  run))),
      )
    where
      empty : find_user first.0 [] ≡ none
      empty = unfold find_user in refl
