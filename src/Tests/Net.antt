-- ===== src/Tests/Net.antt =====
-- The client's requests at concrete inputs, on a connection to the server over the database in
-- memory. The cipher of this connection shifts every byte.
use diary.Prelude.{
  ℕ, ◌+◌, ◌-◌, ◌^◌, ◌<◌, ◌≡◌, ◌≢◌, refl, ap, Bool, true, List, [], ◌∷◌, ◌++◌, Option, none, some,
  map,
}
use diary.Prelude.{arith, Text, codes, length, ltb, All, if◌then◌else◌}
use diary.Prelude.Int.{pos, is_positive}
use diary.Libc.Str.{Lacks, strcmp_eq}
use diary.Libc.Sort.{qsort}
use mathlib.Core.Path.{subst}
use mathlib.Core.Option.{some-injective}
use diary.Server.Sqlite.{Row, owned}
use diary.Server.Sqlite.Memory.{memory, run, memory-IsSqlite, memory-Works}
use diary.Server.Storage.{Storage}
use diary.Server.Storage.Entries.{rows_of}
use diary.Server.Handler.{request, handle_line, space, max_entries}
use diary.Server.Handler.Post.{posted_id}
use diary.Server.Handler.Collect.{Fits}
use diary.Client.Net.{Wire, net_post_entry, net_get_entries, entry_cmp_newest_first}
use diary.Client.Net.Read.{IsSealed, entry_of}
use diary.Client.Net.Link.{Link}
use diary.Client.Net.Served.{post_request}
use diary.Client.Net.RoundTrip.{net_get_entries-net_post_entry}

abbrev pub bob : Text
bob = codes "b2"

pub record Wired : Type 0 where
  pub storage : Storage (memory true)
  pub incoming : List Text

abbrev send : Text → Wired → Bool × Wired
send l c =
    let r = handle_line (memory true) bob (request (pos 500) l) c.storage in
    (true, record { storage = r.storage; incoming = c.incoming ++ r.sent })

abbrev receive : Wired → Option Text × Wired
receive c = elim c.incoming [ [] ↦ (none, c) | l ∷ ls ↦ (some l, record c { incoming = ls }) ]

abbrev receive_short : ℕ → Wired → Option Text × Wired
receive_short size c = elim c.incoming [
  | [] ↦ (none, c)
  | l ∷ ls ↦ if ltb (length l) size then (some l, record c { incoming = ls }) else (none, c)
]

abbrev pub unseal : Text → Option Text
unseal [] = none
unseal (b ∷ s) = some (map (λ x. x - 33) s)

abbrev pub wire : Wire
wire = record {
  Conn = Wired;
  proto_send_line = send;
  proto_send_prefixed = λ p b c. send (p ++ b) c;
  proto_recv_line = receive_short;
  proto_recv_line_dyn = receive;
  proto_seal_new = λ t c. some (65 ∷ map (λ x. x + 33) t);
  proto_unseal_new = unseal;
}

shifted-Lacks : (t : Text) → Lacks space (map (λ x. x + 33) t)
shifted-Lacks [] = tt
shifted-Lacks (x ∷ t) = ((λ e. omega arith), shifted-Lacks t)

shifted_back : (t : Text) → map (λ x. x - 33) (map (λ x. x + 33) t) ≡ t
shifted_back [] = refl
shifted_back (x ∷ t) =
    let e : x + 33 - 33 ≡ x = omega arith in rw e (ap (λ s. x ∷ s) (shifted_back t))

pub opens_sealed :
    (t b : Text)
    → some (65 ∷ map (λ x. x + 33) t) ≡ some b
    → Lacks space b × (b ≢ []) × (unseal b ≡ some t)
opens_sealed t b h =
    subst (λ (b : Text). Lacks space b × (b ≢ []) × (unseal b ≡ some t)) (some-injective _ _ h)
      (((λ x. omega arith), shifted-Lacks t), (λ x. cc), ap some (shifted_back t))

pub test_lt : (m n : ℕ) → m < n → ltb m n ≡ true
test_lt m n h = ground arith

unfoldable pub link : Link wire (memory true) bob
link = record {
  storage = λ c. c.storage;
  incoming = λ c. c.incoming;
  clock = λ c. pos 500;
  line_sent = λ l c. refl;
  line_stored = λ l c. refl;
  line_answered = λ l c. refl;
  prefixed = λ p b c. refl;
  received = λ c l ls h. rw h (refl, refl, refl);
  received_short = λ size c l ls h short. rw (h, test_lt (length l) size short) (refl, refl, refl);
  sealed = λ t c b h. opens_sealed t b h;
}

abbrev pub shift : Text → Text
shift t = 65 ∷ map (λ x. x + 33) t

-- Bob has one entry, and nothing is on the way.
abbrev pub start : Wired
start = record {
  storage = record {
    file = record {
      users = record { auth_pubkey = bob; encrypt_pubkey = codes "key" } ∷ [];
      entries =
          record { id = 7; auth_pubkey = bob; timestamp = pos 100; payload = shift (codes "old") }
          ∷ [];
    };
    handle = true;
  };
  incoming = [];
}

abbrev entries : Wired → List Row
entries c = rows_of (memory true) bob c.storage

small :
    posted_id
      (memory true)
      bob
      (post_request wire (memory true) bob link (pos 900) (shift (codes "new")) start)
      start.storage
    < 2 ^ 31
unfolding run
small = omega arith

pub start-Fits : All Fits (entries start)
unfolding rows_of owned strcmp_eq
start-Fits = ((omega arith, omega arith), tt)

pub start-IsSealed : All IsSealed (entries start)
unfolding rows_of owned strcmp_eq
start-IsSealed = (
  (
    ((λ e. omega arith), ((λ e. omega arith), ((λ e. omega arith), ((λ e. omega arith), tt)))),
    (λ e. cc),
  ),
  tt,
)

room : length (entries start) < max_entries
unfolding rows_of owned strcmp_eq
room = omega arith

net_get_entries-net_post_entry_example :
    (net_get_entries wire true (net_post_entry wire (codes "new") (pos 900) start).1).0
    ≡ some (
        qsort entry_cmp_newest_first (
          map (entry_of wire) (entries start)
          ++ record {
            id = (net_post_entry wire (codes "new") (pos 900) start).0;
            timestamp = if is_positive (pos 900) then pos 900 else pos 500;
            text = codes "new";
          }
            ∷ []))
unfolding link
net_get_entries-net_post_entry_example =
    net_get_entries-net_post_entry wire (memory true) bob link (memory-IsSqlite true) memory-Works
      (codes "new") (shift (codes "new")) (pos 900) start refl refl (omega arith) (omega arith)
      small start-Fits start-IsSealed room
