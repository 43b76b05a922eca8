-- ===== src/Server/Shutdown/Laws.antt =====
-- When the server comes to its end.
use ece.Store.{Server}
