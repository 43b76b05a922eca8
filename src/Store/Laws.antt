-- ===== src/Store/Laws.antt =====
-- The steps of the store at a state whose mutexes are free, and what a message adds to the output.
use ece.Base.{
  ℕ, ◌≡◌, ◌≢◌, ◌≤◌, ◌<◌, ◌++◌, [], ◌∷◌, true, false, Bool, some, none, arith, Bytes, NoNul, length,
  int_max, get_elem?, if◌then◌else◌, strcpy, strcpy_fits,
}
use ece.Message.{header, max_data}
use ece.Message.Kind
use ece.Message.RoundTrip.{IsName, frame-eq, frame-none-eq}
use ece.Store.{
  User, Server, Outcome, M, ◌>>=◌, lock, deref, ok, stop, Stop, lift, overflow, Mutex,
  rw as rw_mutex, user_lock, held, set_held, fill_and_send_message,
}

pub set_held-held : (m : Mutex) (s : Server) (b : Bool) → held m s ≡ b → set_held m b s ≡ s
set_held-held rw_mutex s b h = ground arith
set_held-held user_lock s b h = ground arith

-- The bytes of a control message.
abbrev pub wire : ℕ → Bytes → Bytes → Bytes
wire type name d = header type (length d) name ++ d

-- The state after one more `send`.
abbrev pub posted : ℕ → Bytes → Server → Server
posted fd b s = record s { sent = s.sent ++ (fd, b) ∷ [] }

-- A type that `fill_and_send_message` may be given.
abbrev pub IsControl : ℕ → Type 0
IsControl type = (type ≤ int_max) × (type ≢ Kind.message)

-- A text that fits the array `data`.
abbrev pub IsText : Bytes → Type 0
IsText d = NoNul d × (length d < max_data)

pub fill_and_send_message-posted :
    (fd type : ℕ) (name d : Bytes) (s : Server)
    → IsControl type
    → IsName name
    → IsText d
    → fill_and_send_message fd type name (some d) s ≡ ok tt (posted fd (wire type name d) s)
unfolding fill_and_send_message
fill_and_send_message-posted fd type name d s c n t = rw (frame-eq type name c.0 n d c.1 t.0 t.1)

pub fill_and_send_message-none :
    (fd type : ℕ) (name : Bytes) (s : Server)
    → IsControl type
    → IsName name
    → fill_and_send_message fd type name none s ≡ ok tt (posted fd (wire type name []) s)
unfolding fill_and_send_message
fill_and_send_message-none fd type name s c n =
    rw (frame-none-eq type name c.0 n, frame-eq type name c.0 n [] c.1 tt (omega arith))

-- The state inside the critical sections of server.c.
abbrev pub locked : Server → Server
locked s = record s { user_list_mutex = true }

-- A run is put together from the runs of its steps.
pub bind_ok :
    {A B : Type 0} (m : M A) (f : A → M B) {s t : Server} {a : A} {r : Outcome B}
    → m s ≡ ok a t
    → f a t ≡ r
    → (m >>= f) s ≡ r
unfolding ◌>>=◌
bind_ok m f e k = rw (e, ◌>>=◌) k

pub bind_stop :
    {A B : Type 0} (m : M A) (f : A → M B) {s : Server} {e : Stop}
    → m s ≡ stop e
    → (m >>= f) s ≡ stop e
unfolding ◌>>=◌
bind_stop m f h = rw (h, ◌>>=◌)

pub lock-run : (m : Mutex) (s : Server) → held m s ≡ false → lock m s ≡ ok tt (set_held m true s)
unfolding lock
lock-run m s h = rw (h, lock)

pub deref-run :
    (i : ℕ) (s : Server) {u : User} → get_elem? s.user_list i ≡ some u → deref (some i) s ≡ ok u s
unfolding deref
deref-run i s h = rw (h, deref)

pub if_true :
    {A : Type 0} {b : Bool} (m k : M A) {s : Server} {r : Outcome A}
    → b ≡ true
    → m s ≡ r
    → (if b then m else k) s ≡ r
if_true m k h e = rw h e

pub if_false :
    {A : Type 0} {b : Bool} (m k : M A) {s : Server} {r : Outcome A}
    → b ≡ false
    → k s ≡ r
    → (if b then m else k) s ≡ r
if_false m k h e = rw h e

pub strcpy-run :
    (cap : ℕ) (d : Bytes) (s : Server) → length d < cap → lift overflow (strcpy cap d) s ≡ ok d s
strcpy-run cap d s h = rw (strcpy_fits cap d h)
