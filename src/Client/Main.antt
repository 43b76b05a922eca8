-- ===== src/Client/Main.antt =====
-- client.c: the loop of `main`, round by round.
pub mod Limit
use ece.Base.{ℕ, Bool, true, false, List, [], ◌∷◌, Option, some, Bytes, ◌==◌, if◌then◌else◌, ◌>>=◌}
use ece.Client.{Client, Network, terminate_program}
use ece.Client.Commands.{check_commands, read_input, nth, run_command}

abbrev pub thread_number : ℕ
thread_number = 10

-- What `getline` gives: a line, nothing, or an error.
pub data Typed : Type 0 where
  line : Bytes → Typed
  nothing read_error : Typed

-- `line_buffer[0] == '\n'`
unfoldable pub is_blank : Bytes → Bool
is_blank [] = false
is_blank (c ∷ s) = c == b'\n'

-- One round; the Boolean says whether there is another. The network is what a connection would meet.
unfoldable pub main_round : Network → Typed → Client → Option (Client × Bool)
unfolding is_blank terminate_program
main_round net typed c =
    if c.thread_count == thread_number
    then (terminate_program c >>= λ d. some (d, false))
    else elim typed [
      | nothing ↦ some (c, true)
      | read_error ↦ some (c, true)
      | line text ↦
          if is_blank text
          then some (c, true)
          else (read_input text >>= λ words.
              run_command net (check_commands (nth 0 words.1)) words.0 words.1 text c)
    ]

-- The rounds, as long as there are lines.
unfoldable pub main_loop : List (Network × Typed) → Client → Option (Client × Bool)
main_loop [] c = some (c, true)
main_loop ((net, typed) ∷ more) c =
    main_round net typed c >>= λ r. elim r.1 [ true ↦ main_loop more r.0 | false ↦ some r ]
