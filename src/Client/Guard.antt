-- ===== src/Client/Guard.antt =====
-- When the loop in main lets a kick or a promotion through.
use ece.Base.{
  ℕ, ◌≡◌, sym, ap, ◌≢◌, ◌<◌, ◌⊎◌, inl, inr, Bool, true, not, ◌&&◌, Bool-cases, List, Option, some,
  arith, Bytes, ◌==◌, if◌then◌else◌, ◌>>=◌, length, str_eq, str_eq_iff,
}
use mathlib.Core.Option.{some-injective}
use ece.Message.{max_name}
use ece.Store.{offline, user}
use ece.Client.{Client, Network, kick, promote, length_validate, parameter_count_validate}
use ece.Client.Commands.{
  Command, kick_command, promote_command, nth, admin_command, online_command, run_command,
}

-- The two commands that act on another user.
pub data AdminCommand : Type 0 where
  kicks promotes : AdminCommand

abbrev pub command_of : AdminCommand → Command
command_of kicks = kick_command
command_of promotes = promote_command

-- What the client knows when it sends such a request for `target`.
pub record IsAllowed (c : Client) (target : Bytes) : Type 0 where
  pub connected : c.server_connection_status ≢ offline
  pub inside : c.session_status ≢ offline
  pub rank : c.role ≢ user
  pub other : target ≢ c.name
  pub fits : length target < max_name

same_client :
    (c d : Client) (a b : Bool)
    → ◌≡◌ {A = Option (Client × Bool)} (some (c, a)) (some (d, b))
    → d ≡ c
same_client c d a b h = sym (ap (λ r. r.0) (some-injective _ _ h))

module _ (net : Network) (index : ℕ) (input : List Bytes) (line : Bytes) (c d : Client)
    (b : Bool) where
  abbrev allowed : Bool
  allowed =
      parameter_count_validate index 2
      && length_validate (length (nth 1 input)) max_name
      && not (str_eq c.name (nth 1 input))

  allowed-fits : allowed ≡ true → (nth 1 input ≢ c.name) × (length (nth 1 input) < max_name)
  unfolding length_validate
  allowed-fits e = ground (arith, str_eq_iff c.name (nth 1 input))

  -- The tests before a request.
  guarded : Option Client → Option (Client × Bool)
  guarded request =
      if c.server_connection_status == offline
      then some (c, true)
      else ((if c.session_status == offline
            then some c
            else if c.role == user
            then some c
            else if allowed
            then request
            else some c)
          >>= λ e. some (e, true))

  guarded-IsAllowed :
      (request : Option Client)
      → guarded request ≡ some (d, b)
      → (d ≡ c) ⊎ IsAllowed c (nth 1 input)
  unfolding guarded
  guarded-IsAllowed request h = elim (Bool-cases (c.server_connection_status == offline)) [
    | inl e ↦ inl (same_client c d true b (rw e at h))
    | inr e ↦ elim (Bool-cases (c.session_status == offline)) [
      | inl f ↦ inl (same_client c d true b (rw (e, f) at h))
      | inr f ↦ elim (Bool-cases (c.role == user)) [
        | inl g ↦ inl (same_client c d true b (rw (e, f, g) at h))
        | inr g ↦ elim (Bool-cases allowed) [
          | inl k ↦ inr (record {
            connected = ground arith;
            inside = ground arith;
            rank = ground arith;
            other = (allowed-fits k).0;
            fits = (allowed-fits k).1;
          })
          | inr k ↦ inl (same_client c d true b (rw (e, f, g, k) at h))
        ]
      ]
    ]
  ]

  -- Where the loop of the client goes through a command to kick or to promote without an overflow,
  -- in any state and with any words, either the client has not changed and has sent nothing, or it
  -- is connected, in a session and no plain user by its own flags, the target is not the user, and
  -- the target's name fits its array.
  pub run_command-IsAllowed :
      (k : AdminCommand)
      → run_command net (command_of k) index input line c ≡ some (d, b)
      → (d ≡ c) ⊎ IsAllowed c (nth 1 input)
  unfolding run_command online_command admin_command guarded
  run_command-IsAllowed kicks h = guarded-IsAllowed (kick (nth 1 input) c) h
  run_command-IsAllowed promotes h = guarded-IsAllowed (promote (nth 1 input) c) h
