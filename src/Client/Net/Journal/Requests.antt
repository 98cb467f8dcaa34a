-- ===== src/Client/Net/Journal/Requests.antt =====
-- One request of client/net.c, over a connection to server/client_handler.c, and the journal.
use diary.Prelude.{ℕ, ◌^◌, ◌<◌, ◌≡◌, refl, inl, inr, [], ◌∷◌, none, some, true, sym, Option-cases}
use diary.Prelude.{Text, All, All-append, All-keep, if_cases, take}
use mathlib.Core.List.{map-append}
use diary.Prelude.Int.{ℤ, pos, neg, is_positive, IsLong}
use diary.Server.Sqlite.{Sqlite, IsSqlite, Works, insert_entry}
use diary.Server.Storage.Entries.{rows_of}
use diary.Server.Handler.{max_entries}
use diary.Server.Handler.Collect.{Fits}
use diary.Server.Handler.Post.{posted_id, posted_id-fresh, posted_id-positive}
use diary.Client.Net.{Wire, net_post_entry, net_update_entry, net_delete_entry, net_get_entries}
use diary.Client.Net.Order.{NewestFirst-qsort, Permᴰ-qsort}
use diary.Client.Net.Read.{IsSealed, entry_of}
use diary.Client.Net.Link.{Link}
use diary.Client.Net.Served.{
  new_row, post_request, net_post_entry-served, net_update_entry-served, net_delete_entry-served,
}
use diary.Client.Net.Fetched.{take-map, net_get_entries-served}
use diary.Client.Net.Journal.{
  Journal, Action, post, update, delete, entries, Answer, number, listed, Moment, Step, refused,
  posted, updated, deleted, fetched,
}
use diary.Client.Net.Order.Unique.{Apart}
use diary.Client.Net.Journal.Apart.{Step-Apart}
use diary.Client.Net.Journal.Rows.{
  entry_text-sealed, journal_of, has_entry-journal_of, journal_of-with_payload, journal_of-keep,
  IsId-journal_of, below-journal_of, Fits-with_payload, IsSealed-with_payload,
}

module _ (w : Wire) where
  -- The call of client/net.h that makes a request, with memory for what comes.
  abbrev pub perform : Action → w.Conn → Answer × w.Conn
  perform (post text timestamp) c =
      let (id, c1) = net_post_entry w text timestamp c in (number id, c1)
  perform (update id text) c = let (rc, c1) = net_update_entry w (pos id) text c in (number rc, c1)
  perform (delete id) c = let (rc, c1) = net_delete_entry w (pos id) c in (number rc, c1)
  perform entries c = let (es, c1) = net_get_entries w true c in (listed es, c1)

  pub post_unsealed :
      (text : Text) (timestamp : ℤ) (c : w.Conn)
      → w.proto_seal_new text c ≡ none
      → net_post_entry w text timestamp c ≡ (neg 1, c)
  unfolding net_post_entry
  post_unsealed text timestamp c h = rw (h, net_post_entry)

  pub update_unsealed :
      (id : ℤ) (text : Text) (c : w.Conn)
      → w.proto_seal_new text c ≡ none
      → net_update_entry w id text c ≡ (neg 1, c)
  unfolding net_update_entry
  update_unsealed id text c h = rw (h, net_update_entry)

module _ (w : Wire) (sq : Sqlite) (user : Text) (link : Link w sq user) where
  -- The user's rows at the server, as the client reads them.
  abbrev pub journal : w.Conn → Journal
  journal c = journal_of w (rows_of sq user (link.storage c))

  -- The server's clock, and the sealing, as a request finds them.
  abbrev pub moment : w.Conn → Moment
  moment c = record { now = link.clock c; sealed = λ text. w.proto_seal_new text c }

  -- No line is on the way, the identifiers fit an `int` and the timestamps a `long`, and the data is
  -- sealed text.
  abbrev pub Ready : w.Conn → Type 0
  Ready c =
      (link.incoming c ≡ [])
      × All Fits (rows_of sq user (link.storage c))
      × All IsSealed (rows_of sq user (link.storage c))

  -- No two of the user's entries have one identifier, as well.
  abbrev pub Sound : w.Conn → Type 0
  Sound c = Ready c × Apart (journal c)

  -- The numbers of a request are in range, and the identifier that a new entry gets.
  abbrev pub InRange : Action → w.Conn → Type 0
  InRange (post text timestamp) c =
      IsLong timestamp
      × IsLong (link.clock c)
      × ((b64 : Text)
          → w.proto_seal_new text c ≡ some b64
          → posted_id sq user (post_request w sq user link timestamp b64 c) (link.storage c)
            < 2 ^ 31)
  InRange (update id text) c = id < 2 ^ 31
  InRange (delete id) c = id < 2 ^ 31
  InRange entries c = Unit

  -- What a request that ends in `c1` does to the journal of `c`.
  abbrev pub Performs : Action → w.Conn → Type 0
  Performs a c =
      Step (moment c) (journal c) a (perform w a c).0 (journal (perform w a c).1)
      × Ready (perform w a c).1

  module _ (laws : IsSqlite sq) (works : Works sq) where
    sealed_post :
        (text b64 : Text) (timestamp : ℤ) (c : w.Conn)
        → Ready c
        → InRange (post text timestamp) c
        → w.proto_seal_new text c ≡ some b64
        → Performs (post text timestamp) c
    sealed_post text b64 timestamp c (quiet, fit, sealed) (long, clock, bound) seal =
        let rows = rows_of sq user (link.storage c) in
        let r = post_request w sq user link timestamp b64 c in
        let id = posted_id sq user r (link.storage c) in
        let new = new_row w sq user link id timestamp b64 c in
        let small = bound b64 seal in
        let (lacks, nonempty, opens) = link.sealed text c b64 seal in
        let (told, stored, quiet1) =
          net_post_entry-served w sq user link laws works text b64 timestamp c quiet seal long
            small in
        let inserted = works.steps_done (insert_entry _ _ _) _ refl in
        let first = posted_id-positive sq laws user r (link.storage c) inserted in
        let fresh = posted_id-fresh sq laws user r (link.storage c) inserted in
        let new_fits : Fits new = (
          small,
          if_cases IsLong (is_positive timestamp) timestamp (link.clock c) (λ _. long) (λ _. clock),
        ) in
        (
          rw (told, stored, map-append, entry_text-sealed w b64 text opens)
              (posted (journal c) id timestamp text b64 seal first
                (below-journal_of w id rows fresh)),
          (
            quiet1,
            rw stored (All-append Fits rows (new ∷ []) fit (new_fits, tt)),
            rw stored (All-append IsSealed rows (new ∷ []) sealed ((lacks, nonempty), tt)),
          ),
        )

    sealed_update :
        (id : ℕ) (text b64 : Text) (c : w.Conn)
        → Ready c
        → id < 2 ^ 31
        → w.proto_seal_new text c ≡ some b64
        → Performs (update id text) c
    sealed_update id text b64 c (quiet, fit, sealed) small seal =
        let rows = rows_of sq user (link.storage c) in
        let (lacks, nonempty, opens) = link.sealed text c b64 seal in
        let (told, stored, quiet1) =
          net_update_entry-served w sq user link laws works id text b64 c quiet seal small in
        let changed =
          journal_of-with_payload w id b64 text rows (entry_text-sealed w b64 text opens) in
        (
          rw (told, stored, changed, sym (has_entry-journal_of w id rows))
              (updated (journal c) id text b64 seal),
          (
            quiet1,
            rw stored (Fits-with_payload id b64 rows fit),
            rw stored (IsSealed-with_payload id b64 rows (lacks, nonempty) sealed),
          ),
        )

    -- A request is a step of the journal, and leaves the connection ready for the next.
    pub perform-Step : (a : Action) (c : w.Conn) → Ready c → InRange a c → Performs a c
    perform-Step (post text timestamp) c ready range =
        elim (Option-cases (w.proto_seal_new text c)) [
          | inl e ↦
              rw (post_unsealed w text timestamp c e)
                (refused (journal c) (post text timestamp) text refl e, ready)
          | inr (b64, e) ↦ sealed_post text b64 timestamp c ready range e
        ]
    perform-Step (update id text) c ready range = elim (Option-cases (w.proto_seal_new text c)) [
      | inl e ↦
          rw (update_unsealed w (pos id) text c e)
            (refused (journal c) (update id text) text refl e, ready)
      | inr (b64, e) ↦ sealed_update id text b64 c ready range e
    ]
    perform-Step (delete id) c (quiet, fit, sealed) range =
        let (told, stored, quiet1) =
          net_delete_entry-served w sq user link laws works id c quiet range in
        let rows = rows_of sq user (link.storage c) in
        (
          rw (told, stored, journal_of-keep w id rows, sym (has_entry-journal_of w id rows))
              (deleted (journal c) id),
          (
            quiet1,
            rw stored (All-keep Fits _ rows fit),
            rw stored (All-keep IsSealed _ rows sealed),
          ),
        )
    perform-Step entries c (quiet, fit, sealed) range =
        let (told, stored, quiet1) =
          net_get_entries-served w sq user link laws works c quiet fit sealed in
        let rows = rows_of sq user (link.storage c) in
        let es = journal_of w (take max_entries rows) in
        (
          rw (told, stored)
              (fetched (journal c) _ (rw (take-map (entry_of w) max_entries rows) (Permᴰ-qsort es))
                (NewestFirst-qsort es (IsId-journal_of w max_entries rows fit))),
          (quiet1, rw stored fit, rw stored sealed),
        )

    -- The same with the identifiers apart.
    pub perform-Sound :
        (a : Action) (c : w.Conn)
        → Sound c
        → InRange a c
        → Step (moment c) (journal c) a (perform w a c).0 (journal (perform w a c).1)
          × Sound (perform w a c).1
    perform-Sound a c (ready, apart) range =
        let (step, ready1) = perform-Step a c ready range in (step, (ready1, Step-Apart step apart))
