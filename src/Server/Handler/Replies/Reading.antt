-- ===== src/Server/Handler/Replies/Reading.antt =====
-- A reader of the replies of server/client_handler.c, who goes by their first lines.
use diary.Prelude.{ℕ, zero, suc, ◌≡◌, refl, ap, Bool, Bool-cases, inl, inr, List, [], ◌∷◌, ◌++◌}
use diary.Prelude.{Text, codes, length, take, drop, if◌then◌else◌, arith, append-nil}
use diary.Prelude.Int.{ℤ, pos, negsuc}
use diary.Libc.Str.{strncmp_eq}
use diary.Libc.Decimal.{atoi}
use diary.Libc.Decimal.RoundTrip.{atoi-print_int_pos}
use diary.Server.Sqlite.{Sqlite}
use diary.Server.Storage.{Storage}
use diary.Server.Handler.{Request, handle_line, command_loop}
use diary.Server.Handler.Replies.{Turn, bye, fail, saved, listed, updated, deleted}
use diary.Server.Handler.Replies.Commands.{handle_line-Turn}

abbrev to_nat : ℤ → ℕ
to_nat (pos n) = n
to_nat (negsuc n) = 0

-- How many lines follow the first line of a reply.
unfoldable pub lines_after : Text → ℕ
lines_after head = if strncmp_eq head (codes "ENTRIES ") then to_nat (atoi (drop 8 head)) else 0

-- One reply, and what follows it.
abbrev pub read_reply : List Text → List Text × List Text
read_reply [] = ([], [])
read_reply (head ∷ ls) = (head ∷ take (lines_after head) ls, drop (lines_after head) ls)

abbrev pub read_replies : ℕ → List Text → List (List Text) × List Text
read_replies zero ls = ([], ls)
read_replies (suc n) ls =
    let (reply, rest) = read_reply ls in
    let (replies, end) = read_replies n rest in (reply ∷ replies, end)

-- What each request is answered, up to a QUIT.
unfoldable pub sent_each : (sq : Sqlite) → Text → List Request → Storage sq → List (List Text)
sent_each sq user [] st = []
sent_each sq user (r ∷ rs) st =
    let reply = handle_line sq user r st in
    let rest = sent_each sq user rs reply.storage in reply.sent ∷ (if reply.quit then [] else rest)

take-append : (xs ys : List Text) → take (length xs) (xs ++ ys) ≡ xs
take-append [] ys = refl
take-append (x ∷ xs) ys = ap (λ zs. x ∷ zs) (take-append xs ys)

drop-append : (xs ys : List Text) → drop (length xs) (xs ++ ys) ≡ ys
drop-append [] ys = refl
drop-append (x ∷ xs) ys = drop-append xs ys

Turn-read_reply :
    {l : Text} {quit : Bool} {sent : List Text} (more : List Text)
    → Turn l quit sent
    → read_reply (sent ++ more) ≡ (sent, more)
unfolding lines_after strncmp_eq
Turn-read_reply more bye = refl
Turn-read_reply more (fail l reason) = refl
Turn-read_reply more (saved fields id small) = refl
Turn-read_reply more (listed lines bound) = rw (
  atoi-print_int_pos (length lines) (omega arith),
  take-append lines more,
  drop-append lines more,
)
Turn-read_reply more (updated fields) = refl
Turn-read_reply more (deleted fields) = refl

Turn-read_reply_alone :
    {l : Text} {quit : Bool} {sent : List Text} → Turn l quit sent → read_reply sent ≡ (sent, [])
Turn-read_reply_alone {sent = sent} turn =
    let whole : read_reply (sent ++ []) ≡ (sent, []) = Turn-read_reply [] turn in
    rw append-nil at whole

-- A client that knows how many replies it waits for gets each of them, and all of it: the first
-- line of a reply tells where the next one begins, so a session stays in step whatever the client
-- asks and whatever fails.
pub read_replies-command_loop :
    (sq : Sqlite) (user : Text) (rs : List Request) (st : Storage sq)
    → read_replies (length (sent_each sq user rs st)) (command_loop sq user rs st).0
      ≡ (sent_each sq user rs st, [])
unfolding command_loop sent_each
read_replies-command_loop sq user [] st = refl
read_replies-command_loop sq user (r ∷ rs) st =
    let reply = handle_line sq user r st in
    let turn = handle_line-Turn sq user r st in
    elim (Bool-cases reply.quit) [
      | inl e ↦ rw e (rw (Turn-read_reply_alone turn))
      | inr e ↦ rw e (
          rw (
            Turn-read_reply (command_loop sq user rs reply.storage).0 turn,
            read_replies-command_loop sq user rs reply.storage,
          ))
    ]
