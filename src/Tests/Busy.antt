-- ===== src/Tests/Busy.antt =====
-- A connection of Bob's to a server on which Alice's lines are handled between his.
use diary.Prelude.{ℕ, ◌+◌, ◌≢◌, refl, Bool, true, List, [], ◌∷◌, ◌++◌, Option, none, some, map}
use diary.Prelude.{Text, codes, length, ltb, All, if◌then◌else◌}
use diary.Prelude.Int.{pos}
use diary.Server.Sqlite.Memory.{memory, memory-IsSqlite}
use diary.Server.Storage.{Storage}
use diary.Server.Handler.{Request, request, handle_line}
use diary.Server.Handler.Isolation.{serve_schedule, rows_of-serve_schedule}
use diary.Client.Net.{Wire}
use diary.Client.Net.Link.{Link}
use diary.Tests.Net.{bob, unseal, opens_sealed, test_lt, start}
use diary.Tests.Server.{alice, alice_ne, said}

-- The lines of Alice's that are handled behind each line of Bob's.
pub record Busy : Type 0 where
  pub storage : Storage (memory true)
  pub incoming : List Text
  pub others : List (List Request)

abbrev first_lines : List (List Request) → List Request
first_lines [] = []
first_lines (rs ∷ rest) = rs

abbrev later_lines : List (List Request) → List (List Request)
later_lines [] = []
later_lines (rs ∷ rest) = rest

abbrev by_alice : List Request → List (Text × Request)
by_alice = map (λ r. (alice, r))

pub not_bob : (rs : List Request) → All (λ step. step.0 ≢ bob) (by_alice rs)
not_bob [] = tt
not_bob (r ∷ rs) = (alice_ne, not_bob rs)

abbrev send : Text → Busy → Bool × Busy
send l c =
    let r = handle_line (memory true) bob (request (pos 500) l) c.storage in
    (
      true,
      record {
        storage = serve_schedule (memory true) (by_alice (first_lines c.others)) r.storage;
        incoming = c.incoming ++ r.sent;
        others = later_lines c.others;
      },
    )

abbrev receive : Busy → Option Text × Busy
receive c = elim c.incoming [ [] ↦ (none, c) | l ∷ ls ↦ (some l, record c { incoming = ls }) ]

abbrev receive_short : ℕ → Busy → Option Text × Busy
receive_short size c = elim c.incoming [
  | [] ↦ (none, c)
  | l ∷ ls ↦ if ltb (length l) size then (some l, record c { incoming = ls }) else (none, c)
]

abbrev pub busy_wire : Wire
busy_wire = record {
  Conn = Busy;
  proto_send_line = send;
  proto_send_prefixed = λ p b c. send (p ++ b) c;
  proto_recv_line = receive_short;
  proto_recv_line_dyn = receive;
  proto_seal_new = λ t c. some (65 ∷ map (λ x. x + 33) t);
  proto_unseal_new = unseal;
}

unfoldable pub busy_link : Link busy_wire (memory true) bob
busy_link = record {
  storage = λ c. c.storage;
  incoming = λ c. c.incoming;
  clock = λ c. pos 500;
  line_sent = λ l c. refl;
  line_stored = λ l c.
      rows_of-serve_schedule (memory true) (memory-IsSqlite true) bob
        (by_alice (first_lines c.others)) _ (not_bob (first_lines c.others));
  line_answered = λ l c. refl;
  prefixed = λ p b c. refl;
  received = λ c l ls h. rw h (refl, refl, refl);
  received_short = λ size c l ls h short. rw (h, test_lt (length l) size short) (refl, refl, refl);
  sealed = λ t c b h. opens_sealed t b h;
}

-- Alice posts, and tries to delete Bob's entry and to change it.
abbrev pub busy_start : Busy
busy_start = record {
  storage = start.storage;
  incoming = [];
  others =
      (said (codes "POST YmF6") ∷ said (codes "DELETE 7") ∷ [])
      ∷ []
      ∷ (said (codes "UPDATE 7 eA==") ∷ [])
      ∷ [];
}
