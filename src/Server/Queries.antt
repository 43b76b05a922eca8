-- ===== src/Server/Queries.antt =====
-- server.c: the two queries on the valid states.
use ece.Message.{Message}
use ece.Message.Kind
use ece.Store.{Server}
