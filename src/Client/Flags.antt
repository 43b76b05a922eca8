-- ===== src/Client/Flags.antt =====
-- client.c: the flags for access and connection, in server_message_handler and logout.
use ece.Base.{
  ℕ, ◌≡◌, refl, subst, inl, inr, Bool, true, Option, some, none, ◌>>=◌, Option-cases, Bool-cases,
  arith, Bytes, ◌==◌, if◌then◌else◌, strcpy,
}
use ece.Message.{Message, string_to_message, receive_message, max_name, frame}
use ece.Message.Kind
use mathlib.Core.Option.{some-injective}
use ece.Store.{offline, online, user}
use ece.Client.{Client, on, off, post, leave_session, logout}
use ece.Client.Replies.{
  Arrival, received, receive_error, connection_refused, apply_reply, hang_up,
  server_message_handler,
}

-- Access is verified only while the connection is up.
pub record IsClient (c : Client) : Type 0 where
  pub connected : c.verified_access ≡ on → c.server_connection_status ≡ online

apply_reply-IsClient :
    (m : Message) (c d : Client) (b : Bool)
    → c.server_connection_status ≡ online
    → IsClient c
    → apply_reply m c ≡ some (d, b)
    → IsClient d
unfolding apply_reply
apply_reply-IsClient m c d b up v h = record {
  connected = λ e. ground (arith, v.connected, Option-cases (strcpy max_name m.source));
}

pub post-flags :
    (type : ℕ) (source : Bytes) (data' : Option Bytes) (c d : Client)
    → post type source data' c ≡ some d
    → (d.verified_access ≡ c.verified_access)
      × (d.server_connection_status ≡ c.server_connection_status)
unfolding post
post-flags type source data' c d h = ground (arith, Option-cases (frame type source data'))

-- What a request leaves of the two flags.
SameFlags : (c d : Client) → Type 0
SameFlags c d =
    (d.verified_access ≡ c.verified_access)
    × (d.server_connection_status ≡ c.server_connection_status)

SameFlags-IsClient : (c d : Client) → SameFlags c d → IsClient c → IsClient d
unfolding SameFlags
SameFlags-IsClient c d f v = record { connected = λ e. ground (arith, v.connected) }

pub leave_session-IsClient : (c d : Client) → leave_session c ≡ some d → IsClient c → IsClient d
unfolding leave_session
leave_session-IsClient c d h v = elim (Bool-cases (c.session_status == offline)) [
  | inl e ↦ record { connected = λ x. ground (arith, v.connected) }
  | inr e ↦ record {
    connected = λ x. ground (
      arith,
      v.connected,
      post-flags Kind.leave_sess c.name none (record c { session_status = offline; role = user }) d,
    );
  }
]

pub some_bind :
    {A B : Type 0} (o : Option A) (f : A → Option B) (b : B)
    → (o >>= f) ≡ some b
    → (a : A) × (o ≡ some a) × (f a ≡ some b)
some_bind none f b h = absurd (cc)
some_bind (some a) f b h = (a, refl, h)

pub logout-IsClient : (c d : Client) → logout c ≡ some d → IsClient d
unfolding logout
logout-IsClient c d h =
    let (e, first, second) =
      some_bind (if c.session_status == online then leave_session c else some c) _ d h in
    record {
      connected = λ x. absurd (
          ground (
            arith,
            x,
            post-flags Kind.exit e.name none
                (record e { verified_access = off; server_connection_status = offline }) d second,
          ));
    }

pub same_client :
    {c d : Client} {x b : Bool}
    → ◌≡◌ {A = Option (Client × Bool)} (some (c, x)) (some (d, b))
    → c ≡ d
same_client h = cc

hang_up-IsClient : (c d : Client) (b : Bool) → hang_up c ≡ some (d, b) → IsClient c → IsClient d
unfolding hang_up
hang_up-IsClient c d b h v =
    let (e, first, second) =
      some_bind (if c.server_connection_status == online then logout c else some c) _ (d, b) h in
    subst IsClient (same_client second) (elim (Bool-cases (c.server_connection_status == online)) [
      | inl t ↦ logout-IsClient c e (rw t at first)
      | inr t ↦ subst IsClient (some-injective _ _ (rw t at first)) v
    ])

received_text : Bytes → Client → Option (Client × Bool)
received_text text c = string_to_message (receive_message text) >>= λ m.
    if m.type == Kind.message then some (c, true) else apply_reply m c

received_text-IsClient :
    (text : Bytes) (c d : Client) (b : Bool)
    → c.server_connection_status ≡ online
    → IsClient c
    → received_text text c ≡ some (d, b)
    → IsClient d
unfolding received_text
received_text-IsClient text c d b up v h =
    let (m, first, second) = some_bind (string_to_message (receive_message text)) _ (d, b) h in
    elim (Bool-cases (m.type == Kind.message)) [
      | inl t ↦ subst IsClient (same_client (rw t at second)) v
      | inr t ↦ apply_reply-IsClient m c d b up v (rw t at second)
    ]

-- Where the connection is still up when the message arrives.
pub server_message_handler-IsClient :
    (a : Arrival) (c d : Client) (b : Bool)
    → c.server_connection_status ≡ online
    → server_message_handler a c ≡ some (d, b)
    → IsClient c
    → IsClient d
unfolding server_message_handler received_text
server_message_handler-IsClient receive_error c d b up h v = hang_up-IsClient c d b h v
server_message_handler-IsClient connection_refused c d b up h v = hang_up-IsClient c d b h v
server_message_handler-IsClient (received text) c d b up h v =
    received_text-IsClient text c d b up v h
