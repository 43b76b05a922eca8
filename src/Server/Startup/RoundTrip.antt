-- ===== src/Server/Startup/RoundTrip.antt =====
-- Reading the file back.
use ece.Base.{
  ℕ, zero, suc, ◌+◌, ◌≡◌, refl, ◌∙◌, ap, sym, ◌≤◌, ◌<◌, ◌≢◌, true, false, List, [], ◌∷◌, ◌++◌, map,
  append_assoc, append-nil, Option, none, some, arith, Bytes, All, length, length-append, c_str,
  c_str-NoNul, str_eq_iff, get_elem?,
}
use ece.Store.{User, Server, ok, stop, uninitialised, rw as rw_mutex, deref}
use ece.Store.Laws.{bind_ok, bind_stop}
use ece.Database.{
  find_user, user_database_init, user_database_add_user, max_user_count, add_user_success,
}
use ece.Database.Laws.{Distinct}
use ece.Server.Login.{write_to_database}
use ece.Server.Login.Register.{Fits, add_user_new}
use ece.Server.Startup.{Scanned, loaded_user, read_entries, set_up_database, scan_entry, literals}
use ece.Server.Startup.Scan.{Entry, IsEntry, entry, appended, file_text, scan_entry-entry}

abbrev pub loaded : Entry → User
loaded e = loaded_user e.0 e.1

pub loaded-Fits : (e : Entry) → IsEntry e → Fits (loaded e)
loaded-Fits e h = record {
  name = h.name.fits;
  word = omega (arith, h.word.fits);
  session = omega arith;
  address = omega arith;
  outside = refl;
}

abbrev pub after : Entry → List Entry → Scanned
after e es = record {
  end_of_file = false;
  username = some e.0;
  password = some e.1;
  rest = file_text es;
}

-- Each name is new when its turn comes.
abbrev pub Fresh : List Entry → List User → Type 0
Fresh [] us = Unit
Fresh (e ∷ es) us = (find_user e.0 us ≡ none) × Fresh es (us ++ loaded e ∷ [])

-- At the end of the file.
read_end :
    (fuel : ℕ) (username password : Option Bytes) (s : Server)
    → read_entries (suc fuel) username password [] s ≡ ok true s
unfolding read_entries scan_entry literals
read_end fuel username password s = bind_ok _ _ refl refl

abbrev pub with_users : List User → Server → Server
with_users us s = record s { user_list = us }

entries_loaded :
    (es : List Entry) (fuel : ℕ) (username password : Option Bytes) (s : Server)
    → s.rw_mutex ≡ false
    → All IsEntry es
    → Fresh es s.user_list
    → length s.user_list + length es ≤ s.capacity
    → s.capacity ≤ max_user_count
    → length es < fuel
    → read_entries fuel username password (file_text es) s
      ≡ ok true (with_users (s.user_list ++ map loaded es) s)
unfolding read_entries
entries_loaded es zero username password s free h f room few k = absurd (omega arith)
entries_loaded [] (suc fuel) username password s free h f room few k =
    rw append-nil (read_end fuel username password s)
entries_loaded (e ∷ es) (suc fuel) username password s free h f room few k =
    let name_is : c_str e.0 ≡ e.0 = c_str-NoNul e.0 h.0.name.no_nul in
    let word_is : c_str e.1 ≡ e.1 = c_str-NoNul e.1 h.0.word.no_nul in
    let next = with_users (s.user_list ++ loaded e ∷ []) s in
    bind_ok _ _ {t = s} {a = after e es} (rw (scan_entry-entry e es username password h.0) refl) (
      bind_ok _ _ {t = s} {a = e.0} refl (
        bind_ok _ _ {t = s} {a = e.1} refl (
          bind_ok _ _ {t = next} {a = add_user_success}
            (ap (λ n. user_database_add_user (loaded_user n (c_str e.1)) rw_mutex s) name_is
              ∙ ap (λ w. user_database_add_user (loaded_user e.0 w) rw_mutex s) word_is
              ∙ add_user_new (loaded e) s free (omega (arith, room, few)) f.0 (loaded-Fits e h.0)
                  (omega (arith, room)))
            (entries_loaded es fuel (some e.0) (some e.1) next free h.1 f.1
                (omega (arith, room, length-append s.user_list (loaded e ∷ []))) few (omega arith)
              ∙ ap (λ us. ok true (with_users us s))
                  (append_assoc s.user_list (loaded e ∷ []) (map loaded es))))))

-- Names that differ are new each in its turn.
find_user-append :
    (name : Bytes) (us : List User) (u : User)
    → find_user name us ≡ none
    → u.username ≢ name
    → find_user name (us ++ u ∷ []) ≡ none
unfolding find_user
find_user-append name [] u h n = ground (arith, str_eq_iff u.username name)
find_user-append name (v ∷ us) u h n = ground (arith, find_user-append name us u)

abbrev pub entry_names : List Entry → List Bytes
entry_names = map (λ e. e.0)

pub entries-Fresh :
    (es : List Entry) (us : List User)
    → All (λ e. find_user e.0 us ≡ none) es
    → Distinct (entry_names es)
    → Fresh es us
entries-Fresh [] us h d = tt
entries-Fresh (e ∷ es) us h d = (h.0, entries-Fresh es (us ++ loaded e ∷ []) (still es h.1 d.0) d.1)
  where
    still :
        (fs : List Entry)
        → All (λ f. find_user f.0 us ≡ none) fs
        → All (λ m. m ≢ e.0) (entry_names fs)
        → All (λ f. find_user f.0 (us ++ loaded e ∷ []) ≡ none) fs
    still [] k n = tt
    still (f ∷ fs) k n =
        (find_user-append f.0 us (loaded e) k.0 (λ q. n.0 (sym q)), still fs k.1 n.1)

pub empty_table : (es : List Entry) → All (λ e. find_user e.0 [] ≡ none) es
unfolding find_user
empty_table [] = tt
empty_table (e ∷ es) = (refl, empty_table es)

-- Set up.
pub set_up_database-file_text :
    (es : List Entry) (fuel : ℕ)
    → All IsEntry es
    → Distinct (entry_names es)
    → length es ≤ 16
    → length es < fuel
    → set_up_database fuel (user_database_init (some (file_text es)))
      ≡ ok true (with_users (map loaded es) (user_database_init (some (file_text es))))
unfolding set_up_database user_database_init
set_up_database-file_text es fuel h d few enough =
    entries_loaded es fuel none none (user_database_init (some (file_text es))) refl h
      (entries-Fresh es [] (empty_table es) d) (omega arith) (omega arith) enough

-- The text that is appended is that of one more entry.
appended-append :
    (es : List Entry) (e : Entry) → appended (es ++ e ∷ []) ≡ appended es ++ b'\n' ∷ entry e
appended-append [] e = ap (λ t. b'\n' ∷ t) (append-nil (entry e))
appended-append (f ∷ es) e =
    ap (λ t. b'\n' ∷ t)
      (ap (λ t. entry f ++ t) (appended-append es e)
        ∙ sym (append_assoc (entry f) (appended es) (b'\n' ∷ entry e)))

pub file_text-append :
    (first : Entry) (es : List Entry) (e : Entry)
    → file_text (first ∷ (es ++ e ∷ [])) ≡ file_text (first ∷ es) ++ b'\n' ∷ entry e
file_text-append first es e =
    ap (λ t. entry first ++ t) (appended-append es e)
    ∙ sym (append_assoc (entry first) (appended es) (b'\n' ∷ entry e))

-- The database file holds one entry or more, at most 15, with the first at its start, and
-- write_to_database appends a user's: if the names are unique, and names and passwords have 1 to
-- 16 bytes and hold no NUL, quote or bar, a server that starts on that file, given more rounds
-- than there are entries, reads all of it, and its table has those users, in their order, offline
-- and outside of every session.
pub set_up_database-write_to_database :
    (first : Entry) (es : List Entry) (index fuel : ℕ) (u : User) (s : Server)
    → get_elem? s.user_list index ≡ some u
    → s.database ≡ some (file_text (first ∷ es))
    → All IsEntry (first ∷ (es ++ (u.username, u.password) ∷ []))
    → Distinct (entry_names (first ∷ (es ++ (u.username, u.password) ∷ [])))
    → length es ≤ 14
    → length es + 2 < fuel
    → (t r : Server) × (write_to_database index s ≡ ok tt t)
      × (set_up_database fuel (user_database_init t.database) ≡ ok true r)
      × (r.user_list ≡ map loaded (first ∷ (es ++ (u.username, u.password) ∷ [])))
unfolding write_to_database deref
set_up_database-write_to_database first es index fuel u s at file h d few enough =
    let e : Entry = (u.username, u.password) in
    let all : List Entry = first ∷ (es ++ e ∷ []) in
    (
      record s { database = some (file_text all) },
      with_users (map loaded all) (user_database_init (some (file_text all))),
      bind_ok _ _ {t = s} {a = u} (rw at refl) (rw (file, file_text-append first es e) refl),
      set_up_database-file_text all fuel h d (omega (arith, length-append es (e ∷ [])))
          (omega (arith, length-append es (e ∷ []))),
      refl,
    )

-- Where the database file was empty, the entry that write_to_database appends to it starts with a
-- newline, and a server that starts on that file reads an array that was never written.
pub set_up_database-newline :
    (index fuel : ℕ) (u : User) (s : Server)
    → get_elem? s.user_list index ≡ some u
    → s.database ≡ some []
    → (t : Server) × (write_to_database index s ≡ ok tt t)
      × (set_up_database (suc fuel) (user_database_init t.database) ≡ stop uninitialised)
unfolding write_to_database deref set_up_database user_database_init read_entries scan_entry
    literals
set_up_database-newline index fuel u s at file =
    let text : Bytes = b'\n' ∷ entry (u.username, u.password) in
    let nothing : Scanned = record {
      end_of_file = false;
      username = none;
      password = none;
      rest = text;
    } in
    (
      record s { database = some text },
      bind_ok _ _ {t = s} {a = u} (rw at refl) (rw file refl),
      bind_ok _ _ {t = user_database_init (some text)} {a = nothing} refl (bind_stop _ _ refl),
    )
