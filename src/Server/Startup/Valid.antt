-- ===== src/Server/Startup/Valid.antt =====
-- The table that set_up_database leaves behind is one that the server can work on.
use ece.Base.{
  ℕ, ◌≡◌, refl, ◌≢◌, inl, inr, ◌≤◌, ◌<◌, true, List, [], ◌∷◌, map, some, arith, Bytes, Lacks, All,
  length, ap, sym, subst, str_eq_iff,
}
use ece.Store.{Server, ok, not_in_session}
use ece.Database.{count_in_session, user_database_init}
use ece.Database.Laws.{names, Distinct}
use ece.Server.Invariant.{IsUser, IsTable, IsValid, count_admins}
use ece.Server.Startup.{set_up_database}
use ece.Server.Startup.Scan.{Entry, IsEntry, file_text}
use ece.Server.Startup.RoundTrip.{loaded, entry_names, with_users, set_up_database-file_text}

-- A database file that the server reads whole: entries whose names are unique and hold no colon.
pub record IsFile (es : List Entry) : Type 0 where
  pub entries : All IsEntry es
  pub no_colon : All (Lacks b':') (entry_names es)
  pub distinct : Distinct (entry_names es)
  pub few : length es ≤ 16

loaded-IsUser : (e : Entry) → IsEntry e → Lacks b':' e.0 → IsUser (loaded e)
loaded-IsUser e h n = record {
  name = record { no_nul = h.name.no_nul; no_colon = n; fits = omega (arith, h.name.fits) };
  word = omega (arith, h.word.fits);
  id_text = ground arith;
  id_fits = omega arith;
  place = inr (refl, refl, refl);
  rank = inl refl;
  presence = inr (refl, refl);
}

loaded_users :
    (es : List Entry)
    → All IsEntry es
    → All (Lacks b':') (entry_names es)
    → All IsUser (map loaded es)
loaded_users [] h n = tt
loaded_users (e ∷ es) h n = (loaded-IsUser e h.0 n.0, loaded_users es h.1 n.1)

names-loaded : (es : List Entry) → names (map loaded es) ≡ entry_names es
names-loaded [] = refl
names-loaded (e ∷ es) = ap (λ r. e.0 ∷ r) (names-loaded es)

length-loaded : (es : List Entry) → length (map loaded es) ≡ length es
length-loaded [] = refl
length-loaded (e ∷ es) = omega (arith, length-loaded es)

module _ (id : Bytes) (other : id ≢ not_in_session) where
  count_in_session-loaded : (es : List Entry) → count_in_session id (map loaded es) ≡ 0
  unfolding count_in_session
  count_in_session-loaded [] = refl
  count_in_session-loaded (e ∷ es) =
      ground (arith, str_eq_iff not_in_session id, count_in_session-loaded es)

  count_admins-loaded : (es : List Entry) → count_admins id (map loaded es) ≡ 0
  unfolding count_admins
  count_admins-loaded [] = refl
  count_admins-loaded (e ∷ es) = ground (arith, count_admins-loaded es)

loaded-IsTable : (es : List Entry) → IsFile es → IsTable (map loaded es)
loaded-IsTable es f = record {
  users = loaded_users es f.entries f.no_colon;
  distinct = subst Distinct (sym (names-loaded es)) f.distinct;
  sizes = λ id other. omega (arith, count_in_session-loaded id other es);
  admins = λ id other. omega (arith, count_admins-loaded id other es);
}

-- The server on that file.
abbrev pub started : List Entry → Server
started es = with_users (map loaded es) (user_database_init (some (file_text es)))

started-IsValid : (es : List Entry) → IsFile es → IsValid (started es)
unfolding user_database_init
started-IsValid es f = record {
  ready = record { rw_free = refl; user_free = refl };
  table = loaded-IsTable es f;
  bounded = omega (arith, length-loaded es, f.few);
}

-- A server that starts on a database file of at most 16 entries, whose names are unique and without
-- colons, reads all of it and has a valid table.
pub set_up_database-IsValid :
    (es : List Entry) (fuel : ℕ)
    → IsFile es
    → length es < fuel
    → (set_up_database fuel (user_database_init (some (file_text es))) ≡ ok true (started es))
      × IsValid (started es)
set_up_database-IsValid es fuel f enough =
    (set_up_database-file_text es fuel f.entries f.distinct f.few enough, started-IsValid es f)
