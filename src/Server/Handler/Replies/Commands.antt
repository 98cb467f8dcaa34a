-- ===== src/Server/Handler/Replies/Commands.antt =====
-- The replies to the lines of the command loop of server/client_handler.c.
use mathlib.Core.Path.{subst}
use diary.Prelude.{ℕ, ◌%◌, ◌^◌, ◌<◌, ◌≡◌, refl, sym, Bool, true, false, Bool-cases, inl, inr}
use diary.Prelude.{List, [], ◌∷◌, ◌++◌, Option-cases, Text, codes, drop, length}
use diary.Prelude.{arith, ltb, if_cases, map}
use diary.Prelude.Int.{ℤ, pos, is_negative, eq_ℤ, to_int}
use diary.Libc.Str.{
  strcmp_eq, strcmp_eq_iff, strncmp_eq, strncmp_eq-append, strchr, snprintf, snprintf-fits,
}
use diary.Libc.Decimal.{print_int, atoi}
use diary.Libc.Decimal.RoundTrip.{length-print_int_pos}
use diary.Server.Sqlite.{Sqlite, insert_entry}
use diary.Server.Storage.{
  Storage, is_done, statement, storage_add_entry, storage_update_entry, storage_delete_entry,
}
use diary.Server.Handler.{
  Request, Reply, handle_post, handle_get, found_reply, handle_update, handle_delete, handle_line,
  command_loop, post_fields, space,
}
use diary.Server.Handler.Collect.{handle_get_count}
use diary.Server.Handler.Replies.{
  Turn, bye, fail, saved, listed, updated, deleted, Dialogue, ended, left, next,
}

-- A number that is an `int` if it is not negative.
abbrev IsSmall : ℤ → Type 0
IsSmall z = is_negative z ≡ false → (m : ℕ) × (z ≡ pos m) × (m < 2 ^ 31)

IsSmall-to_int : (n : ℕ) → IsSmall (to_int (pos n))
unfolding to_int
IsSmall-to_int n =
    if_cases IsSmall (ltb (n % 2 ^ 32) (2 ^ 31)) _ _ (λ lt h. (n % 2 ^ 32, refl, ground arith))
      (λ _ h. absurd (ground arith))

IsSmall-storage_add_entry :
    (sq : Sqlite) (user d : Text) (ts : ℤ) (st : Storage sq)
    → IsSmall (storage_add_entry sq user d ts st).0
unfolding storage_add_entry
IsSmall-storage_add_entry sq user d ts st =
    if_cases IsSmall (is_done (statement sq (insert_entry user ts d) st).0.rc) _ _
      (λ _. IsSmall-to_int (statement sq (insert_entry user ts d) st).0.rowid)
      (λ _ h. absurd (ground arith))

saved_line :
    (id : ℕ)
    → id < 2 ^ 31
    → snprintf 32 (codes "OK " ++ print_int (pos id)) ≡ codes "OK " ++ print_int (pos id)
saved_line id small =
    snprintf-fits 32 (codes "OK " ++ print_int (pos id))
      (omega (arith, length-print_int_pos id small))

module _ (sq : Sqlite) (user : Text) where
  -- A reply is a turn of the line.
  abbrev pub IsTurn : Text → Reply sq → Type 0
  IsTurn l reply = Turn l reply.quit reply.sent

  found-Turn :
      (l : Text) (o : ℤ × Storage sq) → Turn l false (codes "OK" ∷ []) → IsTurn l (found_reply sq o)
  unfolding found_reply
  found-Turn l o ok =
      if_cases (λ (t : Text). Turn l false (t ∷ [])) (eq_ℤ o.0 (pos 0)) _ _ (λ _. ok)
        (λ _. fail l (codes "entry not found"))

  post-Turn :
      (fields : Text) (r : Request) (st : Storage sq)
      → IsTurn (codes "POST " ++ fields) (handle_post sq user r st)
  unfolding handle_post
  post-Turn fields r st =
      let (ts, payload) = post_fields (drop 5 r.line) r.now in
      let o = storage_add_entry sq user payload ts st in
      if_cases (λ (t : Text). Turn (codes "POST " ++ fields) false (t ∷ [])) (is_negative o.0) _ _
        (λ _. fail (codes "POST " ++ fields) (codes "could not save entry"))
        (λ h.
          let (id, e, small) = IsSmall-storage_add_entry sq user payload ts st h in
          rw (e, saved_line id small) (saved fields id small))

  handle_get-quit : (r : Request) (st : Storage sq) → (handle_get sq user r st).quit ≡ false
  unfolding handle_get
  handle_get-quit r st = ground arith

  get-Turn : (r : Request) (st : Storage sq) → IsTurn (codes "GET") (handle_get sq user r st)
  get-Turn r st = elim (Bool-cases r.calloc_ok) [
    | inl ok ↦
        let (lines, sent, bound) = handle_get_count sq user r st ok in
        rw (sent, handle_get-quit r st) (listed lines bound)
    | inr failed ↦
        unfold handle_get in rw (handle_get, failed) (fail (codes "GET") (codes "out of memory"))
  ]

  update-Turn :
      (fields : Text) (r : Request) (st : Storage sq)
      → IsTurn (codes "UPDATE " ++ fields) (handle_update sq user r st)
  unfolding handle_update
  update-Turn fields r st = elim (Option-cases (strchr (drop 7 r.line) space)) [
    | inl e ↦
        rw (handle_update, e) (fail (codes "UPDATE " ++ fields) (codes "invalid UPDATE format"))
    | inr ((id, payload), e) ↦
        rw (handle_update, e)
          (found-Turn (codes "UPDATE " ++ fields)
            (storage_update_entry sq user (atoi id) payload st) (updated fields))
  ]

  delete-Turn :
      (fields : Text) (r : Request) (st : Storage sq)
      → IsTurn (codes "DELETE " ++ fields) (handle_delete sq user r st)
  unfolding handle_delete
  delete-Turn fields r st =
      found-Turn (codes "DELETE " ++ fields)
        (storage_delete_entry sq user (atoi (drop 7 r.line)) st) (deleted fields)

  -- A turn of a line that begins with a command, or is one.
  begins :
      {quit : Bool} {sent : List Text} (l command : Text)
      → strncmp_eq l command ≡ true
      → ((fields : Text) → Turn (command ++ fields) quit sent)
      → Turn l quit sent
  begins {quit} {sent} l command h turn =
      subst (λ (t : Text). Turn t quit sent) (sym (strncmp_eq-append l command h))
        (turn (drop (length command) l))

  equals :
      {quit : Bool} {sent : List Text} (l command : Text)
      → strcmp_eq l command ≡ true
      → Turn command quit sent
      → Turn l quit sent
  equals {quit} {sent} l command h turn =
      subst (λ (t : Text). Turn t quit sent) (sym ((strcmp_eq_iff l command).0 h)) turn

  pub handle_line-Turn : (r : Request) (st : Storage sq) → IsTurn r.line (handle_line sq user r st)
  unfolding handle_line
  handle_line-Turn r st =
      if_cases (IsTurn r.line) (strcmp_eq r.line (codes "QUIT")) _ _
        (λ h. equals r.line (codes "QUIT") h bye)
        λ _.
          if_cases (IsTurn r.line) (strncmp_eq r.line (codes "POST ")) _ _
            (λ h. begins r.line (codes "POST ") h λ fields. post-Turn fields r st)
            λ _.
              if_cases (IsTurn r.line) (strcmp_eq r.line (codes "GET")) _ _
                (λ h. equals r.line (codes "GET") h (get-Turn r st))
                λ _.
                  if_cases (IsTurn r.line) (strncmp_eq r.line (codes "UPDATE ")) _ _
                    (λ h. begins r.line (codes "UPDATE ") h λ fields. update-Turn fields r st)
                    λ _.
                      if_cases (IsTurn r.line) (strncmp_eq r.line (codes "DELETE ")) _ _
                        (λ h. begins r.line (codes "DELETE ") h λ fields. delete-Turn fields r st)
                        (λ _. fail r.line (codes "unknown command"))

  -- Every line that a client sends is answered by one reply of its kind, in order, whatever fails.
  pub command_loop-Dialogue :
      (rs : List Request) (st : Storage sq)
      → Dialogue (map (λ r. r.line) rs) (command_loop sq user rs st).0
  unfolding command_loop
  command_loop-Dialogue [] st = ended
  command_loop-Dialogue (r ∷ rs) st =
      let turn = handle_line-Turn r st in
      elim (Bool-cases (handle_line sq user r st).quit) [
        | inl e ↦ rw e (left (map (λ r. r.line) rs) (rw e at turn))
        | inr e ↦
            rw e (next (rw e at turn) (command_loop-Dialogue rs (handle_line sq user r st).storage))
      ]
