-- ===== src/Client/Service.antt =====
-- What the screens of client/ui.c use of client/net.c: the calls on a connection, which client/net.h
-- declares. A call may change the connection, and answers a number; a negative one is a failure.
use diary.Prelude.{Text}
use diary.Prelude.Int.{ℤ}

pub record Service : Type 1 where
  pub Conn : Type 0
  pub net_post_entry : Text → ℤ → Conn → ℤ × Conn
  pub net_update_entry : ℤ → Text → Conn → ℤ × Conn
  pub net_delete_entry : ℤ → Conn → ℤ × Conn
