-- ===== src/Client/Net/Acknowledged.antt =====
-- What the requests of client/net.c report, beside what came over the wire, on any connection.
use diary.Prelude.{
  ℕ, ◌≡◌, ◌≢◌, refl, ap, ◌∙◌, Bool, true, false, inl, inr, not, List, ◌++◌, Option, none, some,
  Option-cases,
}
use diary.Prelude.{Text, codes, drop, length, if◌then◌else◌}
use diary.Prelude.Int.{ℤ, pos, neg}
use diary.Libc.Str.{strcmp_eq, strncmp_eq, snprintf}
use diary.Libc.Decimal.{print_int, atoi}
use diary.Client.Net.{
  Wire, DiaryEntry, post_prefix, update_prefix, net_post_entry, net_update_entry, net_delete_entry,
  net_get_entries, to_nat,
}
use diary.Client.Net.Listing.{listing, listing_lem, listing_run}
use diary.Client.Net.Journal.{Action, post, update, delete, entries, Answer, number, listed}
use diary.Client.Net.Journal.Requests.{perform, post_unsealed, update_unsealed}

-- An answer other than -1 or an error.
abbrev pub Succeeds : Answer → Type 0
Succeeds (number n) = n ≢ neg 1
Succeeds (listed got) = got ≢ none

module _ {C : Type 0} (value : Text → ℤ) where
  -- What a request makes of the answer of the wire.
  abbrev answer_of : Bool × C → Option Text × C → ℤ × C
  answer_of sent line =
      if not sent.0
      then (neg 1, sent.1)
      else elim line.0 [ none ↦ (neg 1, line.1) | some l ↦ (value l, line.1) ]

  answer_of_lem :
      (sent : Bool × C) (line : Option Text × C)
      → (answer_of sent line).0 ≢ neg 1
      → (sent.0 ≡ true) × ((l : Text) × (line.0 ≡ some l) × ((answer_of sent line).0 ≡ value l))
  answer_of_lem (true, c1) (some l, c2) h = (refl, (l, refl, refl))
  answer_of_lem (true, c1) (none, c2) h = absurd (h refl)
  answer_of_lem (false, c1) line h = absurd (h refl)

-- The answer of a test that is not -1.
tested : (ok : Bool) (v r : ℤ) → r ≡ (if ok then v else neg 1) → r ≢ neg 1 → (ok ≡ true) × (r ≡ v)
tested true v r e h = (refl, e)
tested false v r e h = absurd (h e)

module _ (w : Wire) where
  -- The line that answers what was sent, with what holds of it.
  abbrev pub Answered : Bool × w.Conn → (Text → Type 0) → Type 0
  Answered sent Holds =
      (sent.0 ≡ true) × ((l : Text) × ((w.proto_recv_line 64 sent.1).0 ≡ some l) × Holds l)

  -- What was sent and came for a request, by what it reports.
  abbrev pub Acknowledged : Action → w.Conn → Answer → Type 0
  Acknowledged (post text timestamp) c r =
      (b64 : Text) × (w.proto_seal_new text c ≡ some b64)
      × Answered (w.proto_send_prefixed (post_prefix timestamp) b64 c)
          (λ l. (strncmp_eq l (codes "OK ") ≡ true) × (r ≡ number (atoi (drop 3 l))))
  Acknowledged (update id text) c r =
      (b64 : Text) × (w.proto_seal_new text c ≡ some b64)
      × Answered (w.proto_send_prefixed (update_prefix (pos id)) b64 c)
          (λ l. (strcmp_eq l (codes "OK") ≡ true) × (r ≡ number (pos id)))
  Acknowledged (delete id) c r =
      Answered (w.proto_send_line (snprintf 32 (codes "DELETE " ++ print_int (pos id))) c)
        (λ l. (strcmp_eq l (codes "OK") ≡ true) × (r ≡ number (pos 0)))
  Acknowledged entries c r = Answered (w.proto_send_line (codes "GET") c) (λ l.
      (strncmp_eq l (codes "ENTRIES ") ≡ true)
      × ((es : List DiaryEntry) × (r ≡ listed (some es)) × (length es ≡ to_nat (atoi (drop 8 l)))))

  sent_lem :
      (test : Text → Bool) (value : Text → ℤ) (sent : Bool × w.Conn) (r : ℤ)
      → r
        ≡ (answer_of (λ l. if test l then value l else neg 1) sent (w.proto_recv_line 64 sent.1)).0
      → r ≢ neg 1
      → Answered sent (λ l. (test l ≡ true) × (number r ≡ number (value l)))
  sent_lem test value sent r e h =
      let (up, (l, came, is)) =
        answer_of_lem (λ l. if test l then value l else neg 1) sent (w.proto_recv_line 64 sent.1)
          (λ bad. h (e ∙ bad)) in
      let (ok, v) = tested (test l) (value l) r (e ∙ is) h in (up, (l, came, (ok, ap number v)))

  delete-Acknowledged :
      (id : ℕ) (c : w.Conn)
      → Succeeds (perform w (delete id) c).0
      → Acknowledged (delete id) c (perform w (delete id) c).0
  unfolding net_delete_entry
  delete-Acknowledged id c h =
      sent_lem (λ l. strcmp_eq l (codes "OK")) (λ l. pos 0)
        (w.proto_send_line (snprintf 32 (codes "DELETE " ++ print_int (pos id))) c) _ refl h

  post-Acknowledged :
      (text : Text) (timestamp : ℤ) (c : w.Conn)
      → Succeeds (perform w (post text timestamp) c).0
      → Acknowledged (post text timestamp) c (perform w (post text timestamp) c).0
  post-Acknowledged text timestamp c h = elim (Option-cases (w.proto_seal_new text c)) [
    | inl e ↦ absurd (h (ap (λ r. r.0) (post_unsealed w text timestamp c e)))
    | inr (b64, e) ↦ (
      b64,
      e,
      sent_lem (λ l. strncmp_eq l (codes "OK ")) (λ l. atoi (drop 3 l))
          (w.proto_send_prefixed (post_prefix timestamp) b64 c) _
          (unfold net_post_entry in rw (e, net_post_entry) refl) h,
    )
  ]

  update-Acknowledged :
      (id : ℕ) (text : Text) (c : w.Conn)
      → Succeeds (perform w (update id text) c).0
      → Acknowledged (update id text) c (perform w (update id text) c).0
  update-Acknowledged id text c h = elim (Option-cases (w.proto_seal_new text c)) [
    | inl e ↦ absurd (h (ap (λ r. r.0) (update_unsealed w (pos id) text c e)))
    | inr (b64, e) ↦ (
      b64,
      e,
      sent_lem (λ l. strcmp_eq l (codes "OK")) (λ l. pos id)
          (w.proto_send_prefixed (update_prefix (pos id)) b64 c) _
          (unfold net_update_entry in rw (e, net_update_entry) refl) h,
    )
  ]

  entries-Acknowledged :
      (c : w.Conn)
      → Succeeds (perform w entries c).0
      → Acknowledged entries c (perform w entries c).0
  entries-Acknowledged c h =
      let sent = w.proto_send_line (codes "GET") c in
      let run : (net_get_entries w true c).0 ≡ listing w sent (w.proto_recv_line 64 sent.1) =
        listing_run w c in
      let (up, (l, came, starts, (es, got, len))) =
        listing_lem w sent (w.proto_recv_line 64 sent.1) (λ bad. h (run ∙ bad)) in
      (up, (l, came, (starts, (es, ap listed (run ∙ got), len))))

  -- A request that reports success has had it acknowledged: its line was sent, with the text sealed
  -- if it has one, and a line came that says OK, for a new entry with the identifier reported. A
  -- listing that reports entries reports as many as the line that came announces. This is so on any
  -- connection, whatever it answers.
  pub perform-Acknowledged :
      (a : Action) (c : w.Conn) → Succeeds (perform w a c).0 → Acknowledged a c (perform w a c).0
  perform-Acknowledged (post text timestamp) c h = post-Acknowledged text timestamp c h
  perform-Acknowledged (update id text) c h = update-Acknowledged id text c h
  perform-Acknowledged (delete id) c h = delete-Acknowledged id c h
  perform-Acknowledged entries c h = entries-Acknowledged c h
