-- ===== src/Server/Threads/Entries.antt =====
-- A thread that gets a user: by a registration, or by a login.
use ece.Base.{
  ℕ, ◌≡◌, refl, ◌∙◌, ap, sym, subst, ◌≢◌, List, [], ◌∷◌, ◌++◌, some, none, Bytes, length, get_elem?,
  modify, ◌<◌,
}
use mathlib.Core.Option.{some-injective}
use ece.Message.RoundTrip.{IsName}
use ece.Store.{User, Server, ok, online, max_address_length, max_password_length}
use ece.Database.{find_user, add_user_success}
use ece.Database.Laws.{find_user-new, get_elem?-modify_self, find_user-names, names-modify}
use ece.Database.Run.{Located}
use ece.Server.Login.{
  Peer, success_login, get_user_ip_address_and_port, user_login, user_registration, verify_login,
}
use ece.Server.Login.Verify.{verify_login-success_iff}
use ece.Server.Login.Arrival.{arrive, note_address, user_login-IsValid, user_login-run}
use ece.Server.Login.Registration.{made, registered}
use ece.Server.Invariant.{IsValid}
use ece.Server.Safety.{LoggedIn}
use ece.Server.Reachable.{Request, Request-IsValid, ok_state}
use ece.Server.Reachable
use ece.Server.Threads.{Thread, connected, serving, owner, put}
use ece.Server.Threads.Kept.{Kept, found_name, Kept-trans, Kept-modify, Kept-append}
use ece.Server.Threads.Steps.{registers_new}
use ece.Server.Threads.Owners.{Serves, IsSafe, advance}

-- The change of everybody but `n`.
abbrev pub Elsewhere : Bytes → List User → List User → Type 0
Elsewhere n = Kept (λ m. m ≢ n) (λ m. m ≢ n)

-- A change of the user `n` alone.
pub own_entry :
    (n : Bytes) (f : User → User) (us : List User) (i : ℕ) (u : User)
    → ((v : User) → (f v).username ≡ v.username)
    → get_elem? us i ≡ some u
    → u.username ≡ n
    → Elsewhere n us (modify us i f)
own_entry n f us i u same at named = Kept-modify _ _ f us i same λ v there.
    let hers : v.username ≡ n =
      subst (λ z. z.username ≡ n) (some-injective _ _ (sym at ∙ there)) named in
    (λ other. absurd (other hers), λ other. absurd (other hers))

get_elem?-new : (us : List User) (u : User) → get_elem? (us ++ u ∷ []) (length us) ≡ some u
get_elem?-new [] u = refl
get_elem?-new (v ∷ us) u = get_elem?-new us u

-- Two searches for one name end at one entry.
one_entry :
    (n : Bytes) (s : Server) (i j : ℕ) (u v : User)
    → Located n s i u
    → Located n s j v
    → (i ≡ j) × (u ≡ v)
one_entry n s i j u v l k =
    let same : i ≡ j = some-injective _ _ (sym l.found ∙ k.found) in
    (
      same,
      some-injective _ _ (sym l.at ∙ subst (λ z. get_elem? s.user_list z ≡ some v) (sym same) k.at),
    )

pub mine_only : (name m : Bytes) → owner (serving name) ≡ some m → m ≡ name
mine_only name m e = sym (some-injective _ _ e)

module _ (s : Server) (ts : List Thread) (safe : IsSafe s ts) where
  -- A registration, for a connection without a user.
  pub registers-IsSafe :
      (t : Server) (k : ℕ) (peer : ℕ → Peer) (name word : Bytes) (fd : ℕ) (address : Bytes)
      (port : ℕ)
      → get_elem? ts k ≡ some connected
      → IsName name
      → length word < max_password_length
      → get_user_ip_address_and_port peer fd ≡ some (address, port)
      → length address < max_address_length
      → length s.user_list < s.capacity
      → user_registration peer name word fd s ≡ ok add_user_success t
      → IsSafe t (put k (serving name) ts)
  registers-IsSafe t k peer name word fd address port at n fits from short room h =
      let v = safe.valid in
      let (fresh, e) =
        registers_new peer name word fd address port s t v n fits from short room h in
      let new = made peer name word fd address port s v n fits from short in
      let users = s.user_list ++ new ∷ [] in
      let kept : Elsewhere name s.user_list t.user_list =
        subst (λ z. Elsewhere name s.user_list z.user_list) (sym e)
          (Kept-append _ _ s.user_list (new ∷ [])) in
      let entry : LoggedIn name (registered peer name word fd address port s v n fits from short)
          (length s.user_list) new =
        record {
          located = record {
            found = find_user-new name s.user_list new fresh refl;
            at = get_elem?-new s.user_list new;
          };
          present = refl;
        } in
      advance s t ts k connected (serving name) name safe at
        (Request-IsValid v (
          Reachable.registers peer name word fd address port add_user_success n fits from short room
            h))
        kept
        (λ l b there own.
          let (i, u, logged, holds) = safe.owned l b name there own in
          absurd (nobody (sym fresh ∙ logged.located.found)))
        (λ m mine. (
          mine_only name m mine,
          subst (λ z. Serves t (serving name) z) (some-injective _ _ mine)
              (
                length s.user_list,
                new,
                subst (λ z. LoggedIn name z (length s.user_list) new) (sym e) entry,
                tt,
              ),
        ))
    where
      nobody : {i : ℕ} → none ≡ some i → ⊥
      nobody e = cc

  -- A login. Whoever is let in was not online, so that no thread has that user.
  pub logs_in-IsSafe :
      (t : Server) (k : ℕ) (peer : ℕ → Peer) (name word : Bytes) (fd : ℕ) (address : Bytes)
      (port : ℕ)
      → get_elem? ts k ≡ some connected
      → verify_login name word s ≡ ok success_login s
      → get_user_ip_address_and_port peer fd ≡ some (address, port)
      → length address < max_address_length
      → user_login peer name online fd s ≡ ok tt t
      → IsSafe t (put k (serving name) ts)
  logs_in-IsSafe t k peer name word fd address port at allowed from short h =
      let v = safe.valid in
      let (i, u, l, same, away) = (verify_login-success_iff name word s).0 allowed in
      let (w, run, valid, entry) =
        user_login-IsValid peer name fd address port s i u v l from short in
      let named = found_name name s.user_list i u l.found l.at in
      let first = modify s.user_list i (arrive fd) in
      let there = get_elem?-modify_self (arrive fd) s.user_list i l.at in
      let e : t ≡ record s { user_list = modify first i (note_address address port) } =
        ok_state h (user_login-run peer name fd address port s i u v l from short) in
      let kept =
        Kept-trans _ _ s.user_list first (modify first i (note_address address port))
          (own_entry name (arrive fd) s.user_list i u (λ z. refl) l.at named)
          (own_entry name (note_address address port) first i (arrive fd u) (λ z. refl) there
            named) in
      let same_place =
        still name first i (note_address address port)
          (still name s.user_list i (arrive fd) l.found (λ z. refl)) (λ z. refl) in
      advance s t ts k connected (serving name) name safe at (subst IsValid (ok_state run h) valid)
        (subst (λ z. Elsewhere name s.user_list z.user_list) (sym e) kept)
        (λ j b stands own.
          let (p, x, logged, holds) = safe.owned j b name stands own in
          absurd (
            away
              (ap (λ z. z.status) (one_entry name s i p u x l logged.located).1 ∙ logged.present)))
        (λ m mine. (
          mine_only name m mine,
          subst (λ z. Serves t (serving name) z) (some-injective _ _ mine)
              (
                i,
                note_address address port (arrive fd u),
                record {
                  located = record {
                    found = subst (λ z. find_user name z.user_list ≡ some i) (sym e) same_place;
                    at =
                        subst
                          (λ z.
                            get_elem? z.user_list i
                            ≡ some (note_address address port (arrive fd u)))
                          (ok_state run h) entry;
                  };
                  present = refl;
                },
                tt,
              ),
        ))
    where
      still :
          (n : Bytes) (us : List User) (j : ℕ) (f : User → User)
          → find_user n us ≡ some j
          → ((x : User) → (f x).username ≡ x.username)
          → find_user n (modify us j f) ≡ some j
      still n us j f found keeps =
          find_user-names n (modify us j f) us (names-modify f us j keeps) ∙ found
