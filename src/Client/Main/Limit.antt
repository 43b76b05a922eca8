-- ===== src/Client/Main/Limit.antt =====
-- client.c: how many logins and registrations a client can try.
use ece.Base.{
  ℕ, zero, suc, ◌+◌, ◌≡◌, refl, ◌∙◌, ap, sym, subst, ◌⊎◌, inl, inr, ◌<◌, ◌≤◌, true, false,
  Bool-cases, List, [], ◌∷◌, ◌++◌, append-nil, map, Option, none, some, arith, Bytes, All, length,
  ◌==◌, ==_iff,
}
use ece.Client.{
  Client, start, on, off, Attempt, Network, resolved, connect_loop, connect_and_post, login,
  user_registration, join_threads, written, terminate_program, sig_kill_handler,
  parameter_count_validate,
}
use ece.Client.Commands.{
  check_commands, read_input, nth, run_command, login_command, create_command, quit_command,
  connect_command,
}
use ece.Client.Main.{thread_number, Typed, line, is_blank, main_round, main_loop}

-- A line that is typed while the server has these addresses.
abbrev pub typed_at : List Attempt × Bytes → Network × Typed
typed_at (addresses, text) = (resolved addresses, line text)

-- A command to log in or to register with all of its words, at a time when none of the addresses can
-- be connected.
pub record IsFutile (a : List Attempt × Bytes) : Type 0 where
  pub refused : connect_loop a.0 ≡ false
  pub filled : is_blank a.1 ≡ false
  pub rows : List Bytes
  pub read : read_input a.1 ≡ some (5, rows)
  pub asks :
      (check_commands (nth 0 rows) ≡ login_command) ⊎ (check_commands (nth 0 rows) ≡ create_command)

-- A client on which nobody is logged in, after so many attempts.
abbrev pub tried : ℕ → Client → Client
tried n c = record c { thread_count = n }

connect_and_post-refused :
    (type : ℕ) (addresses : List Attempt) (username password : Bytes) (c : Client)
    → connect_loop addresses ≡ false
    → connect_and_post type (resolved addresses) username password c ≡ some c
unfolding connect_and_post
connect_and_post-refused type addresses username password c h = ground (arith, h)

connect_command-refused :
    (request : Bytes → Bytes → Client → Option Client) (input : List Bytes) (c : Client)
    → (c.verified_access == on) ≡ false
    → request (nth 1 input) (nth 2 input) c ≡ some c
    → connect_command request 5 input c ≡ some (tried (c.thread_count + 1) c)
unfolding connect_command parameter_count_validate
connect_command-refused request input c free h = rw (free, h) refl

module _ (addresses : List Attempt) (text : Bytes) (c : Client)
    (h : IsFutile (addresses, text)) where
  run_command-futile :
      c.verified_access ≡ off
      → run_command (resolved addresses) (check_commands (nth 0 h.rows)) 5 h.rows text c
        ≡ some (tried (c.thread_count + 1) c, true)
  unfolding run_command login user_registration
  run_command-futile free =
      let out : (c.verified_access == on) ≡ false = ground arith in
      elim h.asks [
        | inl e ↦
            rw
              (
                e,
                connect_command-refused (login (resolved addresses)) h.rows c out (
                    connect_and_post-refused _ addresses (nth 1 h.rows) (nth 2 h.rows) c h.refused),
              )
              refl
        | inr e ↦
            rw
              (
                e,
                connect_command-refused (user_registration (resolved addresses)) h.rows c out (
                    connect_and_post-refused _ addresses (nth 1 h.rows) (nth 2 h.rows) c h.refused),
              )
              refl
      ]

  main_round-futile :
      c.verified_access ≡ off
      → (c.thread_count == thread_number) ≡ false
      → main_round (resolved addresses) (line text) c ≡ some (tried (c.thread_count + 1) c, true)
  unfolding main_round
  main_round-futile free room = rw (room, h.filled, h.read) (run_command-futile free)

main_loop-step :
    (x : Network × Typed) (xs : List (Network × Typed)) (c d : Client)
    → main_round x.0 x.1 c ≡ some (d, true)
    → main_loop (x ∷ xs) c ≡ main_loop xs d
unfolding main_loop
main_loop-step x xs c d h = rw (h, main_loop) refl

main_loop-futile :
    (futile : List (List Attempt × Bytes)) (more : List (Network × Typed)) (n : ℕ)
    → All IsFutile futile
    → n + length futile ≤ thread_number
    → main_loop (map typed_at futile ++ more) (tried n start)
      ≡ main_loop more (tried (n + length futile) start)
unfolding main_loop start
main_loop-futile [] more n h few = ap (λ k. main_loop more (tried k start)) (omega arith)
main_loop-futile (a ∷ futile) more n h few =
    main_loop-step (typed_at a) _ (tried n start) (tried (n + 1) start)
      (main_round-futile a.0 a.1 (tried n start) h.0 refl (ground arith))
    ∙ main_loop-futile futile more (n + 1) h.1 (omega (arith, few))
    ∙ ap (λ k. main_loop more (tried k start)) (omega arith)

from_start :
    (futile : List (List Attempt × Bytes)) (more : List (Network × Typed))
    → All IsFutile futile
    → length futile ≤ thread_number
    → main_loop (map typed_at futile ++ more) start ≡ main_loop more (tried (length futile) start)
unfolding start
from_start futile more h few =
    main_loop-futile futile more 0 h (omega arith)
    ∙ ap (λ k. main_loop more (tried k start)) (omega arith)

-- No thread was created, so that the first one that is joined was not.
nobody-joined : (n i : ℕ) → 0 < n → join_threads n i [] ≡ false
unfolding join_threads written
nobody-joined zero i h = absurd (omega arith)
nobody-joined (suc n) i h = refl

end-undefined : (n : ℕ) → 0 < n → terminate_program (tried n start) ≡ none
unfolding terminate_program start
end-undefined n h = rw (nobody-joined n 0 h) refl

signal-undefined : (n : ℕ) → 0 < n → sig_kill_handler (tried n start) ≡ none
unfolding sig_kill_handler start
signal-undefined n h = rw (nobody-joined n 0 h) refl

-- The command to quit.
pub record IsQuit (typed : Typed) : Type 0 where
  pub text : Bytes
  pub entered : typed ≡ line text
  pub filled : is_blank text ≡ false
  pub rows : List Bytes
  pub read : read_input text ≡ some (1, rows)
  pub asks : check_commands (nth 0 rows) ≡ quit_command

quit-undefined :
    (n : ℕ) (net : Network) (text : Bytes) (rows : List Bytes)
    → 0 < n
    → (n == thread_number) ≡ false
    → is_blank text ≡ false
    → read_input text ≡ some (1, rows)
    → check_commands (nth 0 rows) ≡ quit_command
    → main_round net (line text) (tried n start) ≡ none
unfolding main_round run_command parameter_count_validate
quit-undefined n net text rows some_tried room filled read asks =
    rw (room, filled, read, asks, end-undefined n some_tried) refl

full-undefined :
    (n : ℕ) (net : Network) (typed : Typed)
    → n ≡ thread_number
    → main_round net typed (tried n start) ≡ none
unfolding main_round
full-undefined n net typed h = rw (h, end-undefined thread_number (omega arith)) refl

last_round :
    (n : ℕ) (net : Network) (typed : Typed)
    → 0 < n
    → (n ≡ thread_number) ⊎ IsQuit typed
    → main_round net typed (tried n start) ≡ none
last_round n net typed h (inl full) = full-undefined n net typed full
last_round n net typed h (inr quit) = elim (Bool-cases (n == thread_number)) [
  | inl e ↦ full-undefined n net typed ((==_iff _ _).0 e)
  | inr e ↦
      subst (λ t. main_round net t (tried n start) ≡ none) (sym quit.entered)
        (quit-undefined n net quit.text quit.rows h e quit.filled quit.read quit.asks)
]

main_loop-none :
    (net : Network) (typed : Typed) (more : List (Network × Typed)) (c : Client)
    → main_round net typed c ≡ none
    → main_loop ((net, typed) ∷ more) c ≡ none
unfolding main_loop
main_loop-none net typed more c h = rw (h, main_loop) refl

-- One to ten commands to log in or to register are typed into a client that has just been started, and
-- none of them can be connected to any address of the server. The loop of the client goes through all
-- of them and sends nothing. If /quit is typed next, or anything after ten of them, the program joins a
-- thread that was never created, which C leaves undefined; and so does SIGINT instead.
pub main_loop-undefined :
    (futile : List (List Attempt × Bytes)) (net : Network) (typed : Typed)
    (more : List (Network × Typed))
    → All IsFutile futile
    → 0 < length futile
    → length futile ≤ thread_number
    → (length futile ≡ thread_number) ⊎ IsQuit typed
    → (main_loop (map typed_at futile) start
        ≡ some (record start { thread_count = length futile }, true))
      × (main_loop (map typed_at futile ++ (net, typed) ∷ more) start ≡ none)
      × (sig_kill_handler (record start { thread_count = length futile }) ≡ none)
unfolding main_loop start
main_loop-undefined futile net typed more h some_tried few ends = (
  ap (λ xs. main_loop xs start) (sym (append-nil (map typed_at futile)))
      ∙ from_start futile [] h few,
  from_start futile ((net, typed) ∷ more) h few
      ∙ main_loop-none net typed more (tried (length futile) start)
          (last_round (length futile) net typed some_tried ends),
  signal-undefined (length futile) some_tried,
)
