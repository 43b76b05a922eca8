-- ===== src/Server/Main/Connections.antt =====
-- How many connections `main` takes.
use ece.Base.{
  ℕ, ◌≡◌, refl, ◌∙◌, ap, sym, ◌≤◌, inl, inr, Bool, true, false, List, [], ◌∷◌, ◌++◌, append_assoc,
  append-nil, arith, length, length-append, take, take-append_front, ltb, Bool-cases, ◌==◌,
  if◌then◌else◌, All,
}
use ece.Server.Main.{
  thread_capacity, Accepted, accepted, would_block, failed, Listener, Listening, waits, pool_full,
  accept_round, accept_loop,
}

-- The thread of the connection has its socket in time, and `accept` does not fail.
abbrev pub IsPrompt : Accepted → Type 0
IsPrompt (accepted fd prompt) = prompt ≡ true
IsPrompt would_block = Unit
IsPrompt failed = ⊥

-- The sockets that `accept` would give.
unfoldable pub sockets : List Accepted → List ℕ
sockets [] = []
sockets (accepted fd prompt ∷ as') = fd ∷ sockets as'
sockets (would_block ∷ as') = sockets as'
sockets (failed ∷ as') = sockets as'

-- A pool with these sockets.
abbrev pub pool : List ℕ → Listener
pool fds = record { thread_count = length fds; thread_pool = fds }

-- The pool at the end, when these sockets were to be had.
unfoldable pub settled : List ℕ → Listening
settled fds =
    if ltb (length fds) thread_capacity
    then waits (pool fds)
    else pool_full (pool (take thread_capacity fds))

take-append_full : (xs ys : List ℕ) (n : ℕ) → length xs ≡ n → take n (xs ++ ys) ≡ xs
take-append_full xs ys n e = rw (sym e) (take-append_front xs ys)

settled_full :
    (xs ys : List ℕ) → length xs ≡ thread_capacity → settled (xs ++ ys) ≡ pool_full (pool xs)
unfolding settled
settled_full xs ys e =
    rw (take-append_full xs ys thread_capacity e) (ground (arith, length-append xs ys))

loop_full :
    (as' : List Accepted) (xs : List ℕ)
    → length xs ≡ thread_capacity
    → accept_loop as' (pool xs) ≡ pool_full (pool xs)
unfolding accept_loop accept_round
loop_full [] xs e = ground arith
loop_full (a ∷ as') xs e = rw (e, accept_loop, accept_round) refl

loop_step :
    (a : Accepted) (as' : List Accepted) (l next : Listener)
    → accept_round a l ≡ waits next
    → accept_loop (a ∷ as') l ≡ accept_loop as' next
unfolding accept_loop
loop_step a as' l next h = rw (h, accept_loop) refl

module _ (xs : List ℕ) (room : (length xs == thread_capacity) ≡ false) where
  round_takes :
      (fd : ℕ) (prompt : Bool)
      → prompt ≡ true
      → accept_round (accepted fd prompt) (pool xs) ≡ waits (pool (xs ++ fd ∷ []))
  unfolding accept_round
  round_takes fd prompt h = ground (arith, length-append xs (fd ∷ []))

  round_passes : accept_round would_block (pool xs) ≡ waits (pool xs)
  unfolding accept_round
  round_passes = ground arith

  loop_takes :
      (fd : ℕ) (prompt : Bool) (as' : List Accepted)
      → prompt ≡ true
      → accept_loop (accepted fd prompt ∷ as') (pool xs) ≡ accept_loop as' (pool (xs ++ fd ∷ []))
  loop_takes fd prompt as' h =
      loop_step (accepted fd prompt) as' (pool xs) (pool (xs ++ fd ∷ [])) (round_takes fd prompt h)

  loop_passes :
      (as' : List Accepted) → accept_loop (would_block ∷ as') (pool xs) ≡ accept_loop as' (pool xs)
  loop_passes as' = loop_step would_block as' (pool xs) (pool xs) round_passes

  loop_waits : length xs ≤ thread_capacity → accept_loop [] (pool xs) ≡ settled (xs ++ [])
  unfolding accept_loop settled
  loop_waits few = rw (append-nil xs, room) (ground arith)

  grows : (fd : ℕ) → length xs ≤ thread_capacity → length (xs ++ fd ∷ []) ≤ thread_capacity
  grows fd few = ground (arith, length-append xs (fd ∷ []))

accept_loop-from :
    (as' : List Accepted) (xs : List ℕ)
    → All IsPrompt as'
    → length xs ≤ thread_capacity
    → accept_loop as' (pool xs) ≡ settled (xs ++ sockets as')
unfolding sockets
accept_loop-from [] xs h few = elim (Bool-cases (length xs == thread_capacity)) [
  | inl e ↦ loop_full [] xs (ground arith) ∙ sym (settled_full xs [] (ground arith))
  | inr e ↦ loop_waits xs e few
]
accept_loop-from (accepted fd prompt ∷ as') xs h few =
    let rest = accept_loop-from as' (xs ++ fd ∷ []) h.1 in
    elim (Bool-cases (length xs == thread_capacity)) [
      | inl e ↦ loop_full _ xs (ground arith) ∙ sym (settled_full xs _ (ground arith))
      | inr e ↦
          loop_takes xs e fd prompt as' h.0
          ∙ rest (grows xs e fd few)
          ∙ ap settled (append_assoc xs (fd ∷ []) (sockets as'))
    ]
accept_loop-from (would_block ∷ as') xs h few =
    let rest = accept_loop-from as' xs h.1 few in
    elim (Bool-cases (length xs == thread_capacity)) [
      | inl e ↦ loop_full _ xs (ground arith) ∙ sym (settled_full xs _ (ground arith))
      | inr e ↦ loop_passes xs e as' ∙ rest
    ]
accept_loop-from (failed ∷ as') xs h few = absurd h.0

-- Where no `accept` fails, and the thread of every connection has read its socket before the round of
-- `main` ends: as long as fewer than ten connections have come, however often `accept` had none, `main`
-- waits for the next with one thread for each, in their order; with the tenth connection the loop ends,
-- with the sockets of the first ten, and whatever comes behind it is never accepted.
pub accept_loop-settled :
    (as' : List Accepted) → All IsPrompt as' → accept_loop as' (pool []) ≡ settled (sockets as')
accept_loop-settled as' h = accept_loop-from as' [] h (omega arith)
