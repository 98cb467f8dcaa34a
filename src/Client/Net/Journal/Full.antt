-- ===== src/Client/Net/Journal/Full.antt =====
-- The listing of client/net.c when the user has more entries than server/client_handler.c sends.
use diary.Server.Sqlite.{Sqlite}
use diary.Client.Net.Link.{Link}
