-- ===== src/Server/Startup/Overflow.antt =====
-- A password that registration takes and set_up_database has no room for.
use ece.Base.{
  ℕ, zero, suc, ◌+◌, ◌≡◌, refl, ◌∙◌, ap, ◌≤◌, ◌<◌, false, List, [], ◌∷◌, ◌++◌, append_assoc, Option,
  none, some, arith, Bytes, All, length, length-append, c_str, c_str-NoNul, get_elem?, ◌==◌, ==_ne,
  strcpy_fits, strcpy,
}
use ece.Message.{max_name}
use ece.Store.{User, Server, ok, stop, overflow, max_password_length, rw as rw_mutex, deref}
use ece.Store.Laws.{bind_ok, bind_stop}
use ece.Database.{user_database_init, user_database_add_user, max_user_count, add_user_success}
use ece.Database.Laws.{Distinct}
use ece.Server.Login.{write_to_database}
use ece.Server.Login.Register.{add_user_new}
use ece.Server.Startup.{
  max_password, loaded_user, read_entries, set_up_database, scan_entry, scan_password, literals,
  at_end,
}
use ece.Server.Startup.Scan.{
  Entry, IsField, IsEntry, entry, file_text, span_quote, scan_entry-entry,
}
use ece.Server.Startup.RoundTrip.{
  loaded, loaded-Fits, after, Fresh, with_users, entry_names, entries-Fresh, empty_table,
  file_text-append,
}

-- An entry whose password fits that of a `user_t`, and not the array of set_up_database.
pub record IsLong (e : Entry) : Type 0 where
  pub name : IsField max_name e.0
  pub word : IsField max_password_length e.1
  pub long : max_password ≤ length e.1

strcpy_long : (cap : ℕ) (s : Bytes) → cap ≤ length s → strcpy cap s ≡ none
unfolding strcpy
strcpy_long cap s h = ground arith

scan_entry-long :
    (e : Entry) (tail : Bytes) (username password : Option Bytes)
    → IsLong e
    → scan_entry username password (entry e ++ tail) ≡ none
unfolding scan_entry scan_password literals at_end
scan_entry-long e tail username password h =
    let some_name : (length e.0 == 0) ≡ false =
      ==_ne (length e.0) 0 (omega (arith, h.name.filled)) in
    let some_word : (length e.1 == 0) ≡ false =
      ==_ne (length e.1) 0 (omega (arith, h.word.filled)) in
    rw
      (
        append_assoc e.0 (b'"' ∷ b':' ∷ b'"' ∷ (e.1 ++ b'"' ∷ [])) tail,
        append_assoc e.1 (b'"' ∷ []) tail,
        span_quote e.0 (b':' ∷ b'"' ∷ (e.1 ++ b'"' ∷ tail)) h.name.inside,
        some_name,
        strcpy_fits max_name e.0 h.name.fits,
        span_quote e.1 tail h.word.inside,
        some_word,
        strcpy_long max_password e.1 h.long,
      )
      refl

overflow_reached :
    (es : List Entry) (e : Entry) (fuel : ℕ) (username password : Option Bytes) (s : Server)
    → s.rw_mutex ≡ false
    → All IsEntry es
    → IsLong e
    → Fresh es s.user_list
    → length s.user_list + length es ≤ s.capacity
    → s.capacity ≤ max_user_count
    → length es < fuel
    → read_entries fuel username password (file_text (es ++ e ∷ [])) s ≡ stop overflow
unfolding read_entries
overflow_reached es e zero username password s free h long f room few k = absurd (omega arith)
overflow_reached [] e (suc fuel) username password s free h long f room few k =
    bind_stop _ _ (rw (scan_entry-long e [] username password long) refl)
overflow_reached (g ∷ es) e (suc fuel) username password s free h long f room few k =
    let name_is : c_str g.0 ≡ g.0 = c_str-NoNul g.0 h.0.name.no_nul in
    let word_is : c_str g.1 ≡ g.1 = c_str-NoNul g.1 h.0.word.no_nul in
    let next = with_users (s.user_list ++ loaded g ∷ []) s in
    bind_ok _ _ {t = s} {a = after g (es ++ e ∷ [])}
      (rw (scan_entry-entry g (es ++ e ∷ []) username password h.0) refl)
      (bind_ok _ _ {t = s} {a = g.0} refl (
        bind_ok _ _ {t = s} {a = g.1} refl (
          bind_ok _ _ {t = next} {a = add_user_success}
            (ap (λ n. user_database_add_user (loaded_user n (c_str g.1)) rw_mutex s) name_is
              ∙ ap (λ w. user_database_add_user (loaded_user g.0 w) rw_mutex s) word_is
              ∙ add_user_new (loaded g) s free (omega (arith, room, few)) f.0 (loaded-Fits g h.0)
                  (omega (arith, room)))
            (overflow_reached es e fuel (some g.0) (some g.1) next free h.1 long f.1
              (omega (arith, room, length-append s.user_list (loaded g ∷ []))) few (omega arith)))))

-- The database file holds one to 16 entries, each a name and a password of 1 to 16 bytes without
-- NULs, quotes and bars, with unique names. write_to_database appends that of a user of the table,
-- whose name is of that kind, and whose password has 17 to 19 bytes, so that it fits the user's
-- own array, and no NUL, quote or bar. A server that starts on that file, given more rounds than
-- there were entries before, writes behind the end of the array for passwords.
pub set_up_database-overflow :
    (first : Entry) (es : List Entry) (index fuel : ℕ) (u : User) (s : Server)
    → get_elem? s.user_list index ≡ some u
    → s.database ≡ some (file_text (first ∷ es))
    → All IsEntry (first ∷ es)
    → IsLong (u.username, u.password)
    → Distinct (entry_names (first ∷ es))
    → length es ≤ 15
    → length es + 1 < fuel
    → (t : Server) × (write_to_database index s ≡ ok tt t)
      × (set_up_database fuel (user_database_init t.database) ≡ stop overflow)
unfolding write_to_database deref set_up_database user_database_init
set_up_database-overflow first es index fuel u s at file h long d few enough =
    let e : Entry = (u.username, u.password) in
    let text = file_text (first ∷ (es ++ e ∷ [])) in
    (
      record s { database = some text },
      bind_ok _ _ {t = s} {a = u} (rw at refl) (rw (file, file_text-append first es e) refl),
      overflow_reached (first ∷ es) e fuel none none (user_database_init (some text)) refl h long
          (entries-Fresh (first ∷ es) [] (empty_table (first ∷ es)) d) (omega arith) (omega arith)
          (omega arith),
    )
