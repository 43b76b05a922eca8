-- ===== src/Client/Tests/Limit.antt =====
-- Two commands to log in at a server that refuses every connection, and /quit.
use ece.Base.{
  strcpy, ◌≡◌, refl, false, true, inl, inr, none, arith, List, [], ◌∷◌, ◌++◌, map, some, Bytes,
  codes, str_eq, tokens, is_delimiter,
}
use ece.Client.{Attempt, unresolved, connect_loop, start, sig_kill_handler}
use ece.Client.Commands.{
  check_commands, read_input, nth, starts_with_slash, copy_tokens, first_tokens,
}
use ece.Client.Main.{line, is_blank, main_loop}
use ece.Client.Main.Limit.{typed_at, IsFutile, IsQuit, main_loop-undefined}

abbrev refusals : List Attempt
refusals = record { made = true; accepted = false } ∷ record { made = false; accepted = false } ∷ []

abbrev command : List Attempt × Bytes
command = (refusals, codes "/login al pw 127.0.0.1 80\n")

command-IsFutile : IsFutile command
unfolding connect_loop is_blank check_commands read_input nth starts_with_slash copy_tokens
    first_tokens strcpy tokens is_delimiter str_eq
command-IsFutile = record {
  refused = refl;
  filled = refl;
  rows = codes "/login" ∷ codes "al" ∷ codes "pw" ∷ codes "127.0.0.1" ∷ codes "80" ∷ [];
  read = refl;
  asks = inl refl;
}

quits : IsQuit (line (codes "/quit\n"))
unfolding is_blank check_commands read_input nth starts_with_slash copy_tokens first_tokens strcpy
    tokens is_delimiter str_eq
quits = record {
  text = codes "/quit\n";
  entered = refl;
  filled = refl;
  rows = codes "/quit" ∷ [];
  read = refl;
  asks = refl;
}

abbrev twice : List (List Attempt × Bytes)
twice = command ∷ command ∷ []

main_loop_example :
    (main_loop (map typed_at twice) start ≡ some (record start { thread_count = 2 }, true))
    × (main_loop (map typed_at twice ++ (unresolved, line (codes "/quit\n")) ∷ []) start ≡ none)
    × (sig_kill_handler (record start { thread_count = 2 }) ≡ none)
main_loop_example =
    main_loop-undefined twice unresolved (line (codes "/quit\n")) []
      (command-IsFutile, (command-IsFutile, tt)) (omega arith) (omega arith) (inr quits)
