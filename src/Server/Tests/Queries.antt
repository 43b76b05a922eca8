-- ===== src/Server/Tests/Queries.antt =====
-- The two queries, where one user is in the table, and a request before any login.
use ece.Base.{refl, ℕ, ◌≡◌, some, none, arith, Bytes, codes}
use ece.Message.{Message, frame}
use ece.Message.Kind
use ece.Store.{stop, uninitialised, online, offline}
use ece.Server.Login.{Peer, ipv4}
use ece.Server.Handler.{Connection, received, sent_all, connection_handler}
use ece.Server.Early.{joins, type_of, connection_handler-early}
use ece.Server.Tests.History.{joined, ada-IsName}

abbrev asking : Connection
asking = record { socket_fd = 4; source = some (codes "ada"); server_connection_status = online }

abbrev question : Message
question = record { type = Kind.sess_query; size = 4; source = codes "ada"; body = codes "math" }

abbrev one_host : ℕ → Peer
one_host fd = ipv4 (codes "10.0.0.9") 4000

abbrev stranger : Connection
stranger = record { socket_fd = 5; source = none; server_connection_status = offline }

early_example :
    (b : Bytes) × (frame (type_of joins) (codes "ada") (some (codes "math")) ≡ some b)
    × (connection_handler one_host stranger (received b sent_all) joined ≡ stop uninitialised)
early_example =
    connection_handler-early one_host stranger refl joined joins (codes "ada") (codes "math")
      sent_all ada-IsName (ground arith) (omega arith)
