-- ===== src/Client/Net/Journal.antt =====
-- What the requests of client/net.c promise their caller: a journal of readable entries, what each
-- request does to it and answers, and whole sequences of requests.
pub mod Rows
pub mod Requests
pub mod Sequences
pub mod Kept
pub mod Grows
pub mod Apart
pub mod Full
use mathlib.Core.List.{Permᴰ}
use diary.Prelude.{
  ℕ, ◌<◌, ◌≡◌, Bool, true, false, not, List, [], ◌∷◌, ◌++◌, Option, none, some, map,
}
use diary.Prelude.{Text, take, keep, All, if◌then◌else◌}
use diary.Prelude.Int.{ℤ, pos, neg, is_positive, eq_ℤ, ltb_ℤ}
use diary.Server.Handler.{max_entries}
use diary.Client.Net.{DiaryEntry}
use diary.Client.Net.Order.{NewestFirst}

-- The entries of a user in the order in which they were made.
abbrev pub Journal : Type 0
Journal = List DiaryEntry

pub data Action : Type 0 where
  post : Text → ℤ → Action
  update : ℕ → Text → Action
  delete : ℕ → Action
  entries : Action

-- An `int`, or the entries if there is no error.
pub data Answer : Type 0 where
  number : ℤ → Answer
  listed : Option (List DiaryEntry) → Answer

abbrev pub has_entry : ℕ → Journal → Bool
has_entry id [] = false
has_entry id (e ∷ es) = if eq_ℤ e.id (pos id) then true else has_entry id es

-- The entry with another text if it has the identifier: its timestamp and its place stay.
abbrev pub with_text : ℕ → Text → DiaryEntry → DiaryEntry
with_text id text e = if eq_ℤ e.id (pos id) then record e { text = text } else e

abbrev pub without : ℕ → Journal → Journal
without id = keep (λ e. not (eq_ℤ e.id (pos id)))

-- The text that a request sends.
abbrev pub sent_text : Action → Option Text
sent_text (post text timestamp) = some text
sent_text (update id text) = some text
sent_text _ = none

-- An entry that a request makes; `now` is the clock.
abbrev pub new_entry : ℕ → ℤ → ℤ → Text → DiaryEntry
new_entry id now timestamp text = record {
  id = pos id;
  timestamp = if is_positive timestamp then timestamp else now;
  text = text;
}

-- What a request meets: the server's clock, and what the connection makes of a text to seal.
pub record Moment : Type 0 where
  pub now : ℤ
  pub sealed : Text → Option Text

-- One request at a moment: the journal before, the answer, and the journal afterwards. A text that
-- cannot be sealed then has the first of these answers and no other, and a new entry has the clock
-- of the moment.
pub data Step (m : Moment) : Journal → Action → Answer → Journal → Type 0 where
  refused :
      (j : Journal) (a : Action) (text : Text)
      → sent_text a ≡ some text
      → m.sealed text ≡ none
      → Step m j a (number (neg 1)) j
  posted :
      (j : Journal) (id : ℕ) (timestamp : ℤ) (text b64 : Text)
      → m.sealed text ≡ some b64
      → 0 < id
      → All (λ e. ltb_ℤ e.id (pos id) ≡ true) j
      → Step m j
          (post text timestamp)
          (number (pos id))
          (j ++ new_entry id m.now timestamp text ∷ [])
  updated :
      (j : Journal) (id : ℕ) (text b64 : Text)
      → m.sealed text ≡ some b64
      → Step m j
          (update id text)
          (number (if has_entry id j then pos id else neg 1))
          (map (with_text id text) j)
  deleted :
      (j : Journal) (id : ℕ)
      → Step m j (delete id) (number (if has_entry id j then pos 0 else neg 1)) (without id j)
  fetched :
      (j es : Journal)
      → Permᴰ (take max_entries j) es
      → NewestFirst es
      → Step m j entries (listed (some es)) j

-- A sequence of requests, each at its own moment, with their answers.
pub data Steps : List Moment → Journal → List Action → List Answer → Journal → Type 0 where
  done : (j : Journal) → Steps [] j [] [] j
  next :
      {m : Moment} {later : List Moment} {j j' j'' : Journal} {a : Action} {more : List Action}
      {r : Answer} {answers : List Answer}
      → Step m j a r j'
      → Steps later j' more answers j''
      → Steps (m ∷ later) j (a ∷ more) (r ∷ answers) j''
