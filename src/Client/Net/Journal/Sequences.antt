-- ===== src/Client/Net/Journal/Sequences.antt =====
-- Sequences of the requests of client/net.c, over one connection to server/client_handler.c.
use diary.Prelude.{ℕ, ◌≡◌, false, Text, List, [], ◌∷◌, some, All}
use diary.Server.Sqlite.{Sqlite, IsSqlite, Works}
use diary.Client.Net.{Wire, DiaryEntry}
use diary.Client.Net.Link.{Link}
use diary.Client.Net.Journal.{Action, Answer, Moment, Steps, done, next}
use diary.Client.Net.Journal.Requests.{perform, moment, journal, Ready, InRange, perform-Step}
use diary.Client.Net.Journal.Kept.{entry_at, deletes, last_text, Steps-entry_at}

-- The requests one after the other, with their answers.
abbrev pub perform_all : (w : Wire) → List Action → w.Conn → List Answer × w.Conn
perform_all w [] c = ([], c)
perform_all w (a ∷ more) c =
    let (answer, c1) = perform w a c in
    let (answers, c2) = perform_all w more c1 in (answer ∷ answers, c2)

module _ (w : Wire) (sq : Sqlite) (user : Text) (link : Link w sq user) where
  -- Each request is in range when it is made.
  abbrev pub AllInRange : List Action → w.Conn → Type 0
  AllInRange [] c = Unit
  AllInRange (a ∷ more) c = InRange w sq user link a c × AllInRange more (perform w a c).1

  -- What each request meets: the clock and the sealing of the connection that the requests before it
  -- leave.
  abbrev pub moments : List Action → w.Conn → List Moment
  moments [] c = []
  moments (a ∷ more) c = moment w sq user link c ∷ moments more (perform w a c).1

  -- The client's requests work on the user's rows at the server as on a journal of readable
  -- entries. Each answer and each change is the one that the journal says: a new entry stands last,
  -- with a positive identifier above all others and the timestamp given, or the server's clock at this
  -- request if that one is not positive, an update changes the text of one entry and is answered by
  -- its identifier, or by -1 if there is none, a deletion removes one and is answered by 0 or -1,
  -- and a listing returns the first 1024 entries, each once, the newest first. A text that cannot
  -- be sealed at the time of its request is answered by -1 and changes nothing, and only a text
  -- that can be sealed is posted or updated. This holds for any sequence of requests on a connection that is up with no
  -- line on the way, while other users may work on the database and no other client of this user
  -- does, with a database that works and memory for the listings, if the user's rows are sealed
  -- text with identifiers that fit an `int` and timestamps that fit a `long`, and the numbers of
  -- the requests, the clock and the new identifiers are in these ranges.
  pub perform_all-Steps :
      (laws : IsSqlite sq) (works : Works sq) (actions : List Action) (c : w.Conn)
      → Ready w sq user link c
      → AllInRange actions c
      → Steps
          (moments actions c)
          (journal w sq user link c)
          actions
          (perform_all w actions c).0
          (journal w sq user link (perform_all w actions c).1)
  perform_all-Steps laws works [] c ready range = done (journal w sq user link c)
  perform_all-Steps laws works (a ∷ more) c ready range =
      let (step, ready1) = perform-Step w sq user link laws works a c ready range.0 in
      next step (perform_all-Steps laws works more (perform w a c).1 ready1 range.1)

  -- An entry of the user stays at the server through any sequence of the client's requests that
  -- does not delete it, under its identifier and its timestamp, with the text of the last update
  -- of it that was answered by its identifier, and else its own text: on a connection that is up
  -- with no line on the way, with a database that works and memory for the listings, if the user's
  -- rows are sealed text with identifiers and timestamps that fit an `int` and a `long`, and the
  -- numbers of the requests, the clock and the new identifiers are in these ranges.
  pub perform_all-entry_at :
      (laws : IsSqlite sq) (works : Works sq) (actions : List Action) (c : w.Conn) (id : ℕ)
      (e : DiaryEntry)
      → Ready w sq user link c
      → AllInRange actions c
      → All (λ a. deletes id a ≡ false) actions
      → entry_at id (journal w sq user link c) ≡ some e
      → entry_at id (journal w sq user link (perform_all w actions c).1)
        ≡ some (record e { text = last_text id actions (perform_all w actions c).0 e.text })
  perform_all-entry_at laws works actions c id e ready range kept at =
      Steps-entry_at id e (perform_all-Steps laws works actions c ready range) kept at
