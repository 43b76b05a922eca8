-- ===== src/Server/Tests/Startup.antt =====
-- A file of two users, to which a third one is added; and an empty file.
use ece.Base.{◌≡◌, refl, List, [], ◌∷◌, ◌++◌, map, some, true, false, arith, All, codes, is_space}
use ece.Store.{Server, User, zero_user, ok, stop, overflow, uninitialised}
use ece.Database.{user_database_init}
use ece.Database.Laws.{Distinct}
use ece.Server.Login.{write_to_database}
use ece.Server.Startup.{set_up_database, in_set}
use ece.Server.Startup.Scan.{Entry, IsEntry, file_text}
use ece.Server.Startup.Endless.{spoiled, set_up_database-endless}
use ece.Server.Startup.Overflow.{IsLong, set_up_database-overflow}
use ece.Server.Startup.RoundTrip.{
  loaded, entry_names, set_up_database-write_to_database, set_up_database-newline,
}

abbrev ann_entry : Entry
ann_entry = (codes "ann", codes "x")

abbrev ben_entry : Entry
ben_entry = (codes "ben", codes "y z")

abbrev cat_user : User
cat_user = record zero_user { username = codes "cat"; password = codes "!" }

abbrev registered : Server
registered = record (user_database_init (some (file_text (ann_entry ∷ ben_entry ∷ [])))) {
  user_list = cat_user ∷ [];
}

abbrev three : List Entry
three = ann_entry ∷ (ben_entry ∷ [] ++ (cat_user.username, cat_user.password) ∷ [])

entries-IsEntry : All IsEntry three
unfolding in_set
entries-IsEntry = (
  record {
    name = record {
      filled = omega arith;
      fits = omega arith;
      no_nul = ground arith;
      inside = ground arith;
    };
    word = record {
      filled = omega arith;
      fits = omega arith;
      no_nul = ground arith;
      inside = ground arith;
    };
  },
  (
    record {
      name = record {
        filled = omega arith;
        fits = omega arith;
        no_nul = ground arith;
        inside = ground arith;
      };
      word = record {
        filled = omega arith;
        fits = omega arith;
        no_nul = ground arith;
        inside = ground arith;
      };
    },
    (
      record {
        name = record {
          filled = omega arith;
          fits = omega arith;
          no_nul = ground arith;
          inside = ground arith;
        };
        word = record {
          filled = omega arith;
          fits = omega arith;
          no_nul = ground arith;
          inside = ground arith;
        };
      },
      tt,
    ),
  ),
)

three-Distinct : Distinct (entry_names three)
three-Distinct = ground arith

set_up_example :
    (t r : Server) × (write_to_database 0 registered ≡ ok tt t)
    × (set_up_database 4 (user_database_init t.database) ≡ ok true r)
    × (r.user_list ≡ map loaded three)
unfolding user_database_init
set_up_example =
    set_up_database-write_to_database ann_entry (ben_entry ∷ []) 0 4 cat_user registered refl refl
      entries-IsEntry three-Distinct (omega arith) (omega arith)

abbrev first_user : Server
first_user = record (user_database_init (some [])) { user_list = cat_user ∷ [] }

newline_example :
    (t : Server) × (write_to_database 0 first_user ≡ ok tt t)
    × (set_up_database 1 (user_database_init t.database) ≡ stop uninitialised)
unfolding user_database_init
newline_example = set_up_database-newline 0 0 cat_user first_user refl refl

two-IsEntry : All IsEntry (ann_entry ∷ ben_entry ∷ [])
two-IsEntry = (entries-IsEntry.0, (entries-IsEntry.1.0, tt))

endless_example :
    (t : Server) × (set_up_database 100
        (user_database_init (some (spoiled (ann_entry ∷ ben_entry ∷ []) b'x' (codes "y\n"))))
      ≡ ok false t)
unfolding is_space
endless_example =
    set_up_database-endless b'x' (codes "y\n") refl (omega arith) 100 ann_entry (ben_entry ∷ [])
      two-IsEntry (omega arith)

-- A password of 17 bytes.
abbrev eve_user : User
eve_user = record zero_user { username = codes "eve"; password = codes "seventeen letters" }

abbrev listed : Server
listed = record (user_database_init (some (file_text (ann_entry ∷ ben_entry ∷ [])))) {
  user_list = eve_user ∷ [];
}

eve-IsLong : IsLong (eve_user.username, eve_user.password)
unfolding in_set
eve-IsLong = record {
  name = record {
    filled = omega arith;
    fits = omega arith;
    no_nul = ground arith;
    inside = ground arith;
  };
  word = record {
    filled = omega arith;
    fits = omega arith;
    no_nul = ground arith;
    inside = ground arith;
  };
  long = omega arith;
}

two-Distinct : Distinct (entry_names (ann_entry ∷ ben_entry ∷ []))
two-Distinct = ground arith

overflow_example :
    (t : Server) × (write_to_database 0 listed ≡ ok tt t)
    × (set_up_database 3 (user_database_init t.database) ≡ stop overflow)
unfolding user_database_init
overflow_example =
    set_up_database-overflow ann_entry (ben_entry ∷ []) 0 3 eve_user listed refl refl two-IsEntry
      eve-IsLong two-Distinct (omega arith) (omega arith)
