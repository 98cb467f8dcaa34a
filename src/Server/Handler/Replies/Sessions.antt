-- ===== src/Server/Handler/Replies/Sessions.antt =====
-- What a whole session of server/client_handler.c sends.
use mathlib.Core.Path.{subst}
use diary.Prelude.{◌≡◌, refl, arith, sym, Bool, true, false, not, List, ◌∷◌, ◌++◌, map}
use diary.Prelude.{Option, none, some, Text, codes, drop, if◌then◌else◌, if_cases}
use diary.Prelude.Int.{pos, eq_ℤ}
use diary.Libc.Str.{strncmp_eq, strncmp_eq-append}
use diary.Server.Sqlite.{Sqlite}
use diary.Server.Storage.{Storage, storage_init, storage_user_exists, storage_register_user}
use diary.Server.Handler.{
  Request, Sodium, valid_key, handle_register, handle_greeting, command_loop, diary_handle,
}
use diary.Server.Handler.Replies.{Dialogue, Session, closed, known, gone, refused, registered}
use diary.Server.Handler.Replies.Commands.{command_loop-Dialogue}

-- All that is sent, if the greeting goes on to the requests or not.
abbrev sent_after : List Text → Bool → List Text → List Text
sent_after greeting go replies = if go then greeting ++ replies else greeting

sent_after-cons :
    (l : Text) (greeting : List Text) (go : Bool) (replies : List Text)
    → sent_after (l ∷ greeting) go replies ≡ l ∷ sent_after greeting go replies
sent_after-cons l greeting true replies = refl
sent_after-cons l greeting false replies = refl

sent_after_stops :
    (greeting : List Text) (go : Bool) (replies : List Text)
    → not go ≡ true
    → sent_after greeting go replies ≡ greeting
sent_after_stops greeting go replies h = ground arith

sent_after_goes :
    (greeting : List Text) (go : Bool) (replies : List Text)
    → not go ≡ false
    → sent_after greeting go replies ≡ greeting ++ replies
sent_after_goes greeting go replies h = ground arith

module _ (sq : Sqlite) (so : Sodium) (user : Text) where
  -- What is sent to a new user, with the requests that may follow.
  abbrev Registers : Option Text → List Text × Bool × Storage sq → Type 0
  Registers hello g =
      (ls replies : List Text)
      → Dialogue ls replies
      → Session hello ls (codes "REGISTER" ∷ sent_after g.0 g.1 replies)

  -- The same for any user.
  abbrev Greets : Option Text → List Text × Bool × Storage sq → Type 0
  Greets hello g =
      (ls replies : List Text) → Dialogue ls replies → Session hello ls (sent_after g.0 g.1 replies)

  registered-Session :
      (line : Text) (ls replies : List Text)
      → strncmp_eq line (codes "REGISTER ") ≡ true
      → Dialogue ls replies
      → Session (some line) ls (codes "REGISTER" ∷ codes "OK" ∷ replies)
  registered-Session line ls replies h d =
      subst (λ (l : Text). Session (some l) ls (codes "REGISTER" ∷ codes "OK" ∷ replies))
        (sym (strncmp_eq-append line (codes "REGISTER ") h)) (registered (drop 9 line) d)

  register-Session :
      (hello : Option Text) (st : Storage sq)
      → Registers hello (handle_register sq so user hello st)
  unfolding handle_register
  register-Session none st = λ ls replies d. gone ls
  register-Session (some line) st =
      let rc = (storage_register_user sq user (drop 9 line) st).0 in
      if_cases (Registers (some line)) (not (strncmp_eq line (codes "REGISTER "))) _ _
        (λ _ ls replies d. refused line ls (codes "expected REGISTER <enc_pubkey_b64>"))
        λ begins.
          if_cases (Registers (some line)) (not (valid_key so (drop 9 line))) _ _
            (λ _ ls replies d. refused line ls (codes "invalid encryption key"))
            λ _.
              if_cases (Registers (some line)) (not (eq_ℤ rc (pos 0))) _ _
                (λ _ ls replies d. refused line ls (codes "could not register user"))
                (λ _ ls replies d. registered-Session line ls replies (ground arith) d)

  greeting-Session :
      (hello : Option Text) (st : Storage sq) → Greets hello (handle_greeting sq so user hello st)
  unfolding handle_greeting
  greeting-Session hello st =
      let (exists, st1) = storage_user_exists sq user st in
      if_cases (Greets hello) (not exists) _ _
        (λ _ ls replies d.
          rw
            (sent_after-cons (codes "REGISTER") (handle_register sq so user hello st1).0
              (handle_register sq so user hello st1).1 replies)
            (register-Session hello st1 ls replies d))
        (λ _ ls replies d. known hello d)

  -- All that a session sends is of the form that the protocol gives it, whatever the client sends
  -- and whatever fails.
  pub diary_handle-Session :
      (db_path : Text) (hello : Option Text) (rs : List Request) (st : Storage sq)
      → Session hello (map (λ r. r.line) rs) (diary_handle sq so db_path user hello rs st).0
  unfolding diary_handle
  diary_handle-Session db_path hello rs st =
      let ls = map (λ (r : Request). r.line) rs in
      let st1 = (storage_init sq db_path st).1 in
      let g = handle_greeting sq so user hello st1 in
      let replies = command_loop sq user rs g.2 in
      let greets = greeting-Session hello st1 ls replies.0 (command_loop-Dialogue sq user rs g.2) in
      if_cases (λ (o : List Text × Storage sq). Session hello ls o.0)
        (not (eq_ℤ (storage_init sq db_path st).0 (pos 0))) _ _ (λ _. closed hello ls (codes "db"))
        (λ _.
          if_cases (λ (o : List Text × Storage sq). Session hello ls o.0) (not g.1) _ _
            (λ stops. subst (Session hello ls) (sent_after_stops g.0 g.1 replies.0 stops) greets)
            (λ goes. subst (Session hello ls) (sent_after_goes g.0 g.1 replies.0 goes) greets))
