-- ===== src/Client/Net/Journal/Kept.antt =====
-- What a journal keeps of an entry.
use diary.Prelude.{
  ℕ, ◌≡◌, refl, sym, ◌∙◌, ap, Bool, true, false, ◌&&◌, List, [], ◌∷◌, ◌++◌, Option, none, some, map,
}
use diary.Prelude.{arith, Text, All, Bool-cases, inl, inr, if◌then◌else◌, ◌==◌, ==_iff}
use diary.Prelude.Int.{ℤ, pos, neg, eq_ℤ}
use diary.Client.Net.{DiaryEntry}
use diary.Client.Net.Journal.{
  Journal, Action, post, update, delete, entries, Answer, number, listed, Moment, Step, refused,
  posted, updated, deleted, fetched, Steps, done, next, has_entry, with_text, without,
}

-- The first entry of an identifier.
abbrev pub entry_at : ℕ → Journal → Option DiaryEntry
entry_at id [] = none
entry_at id (e ∷ es) = if eq_ℤ e.id (pos id) then some e else entry_at id es

-- Whether a request removes the entry of an identifier.
abbrev pub deletes : ℕ → Action → Bool
deletes id (delete i) = i == id
deletes id _ = false

abbrev pub is_number : ℤ → Answer → Bool
is_number n (number m) = eq_ℤ m n
is_number n (listed es) = false

-- The text of an entry after a request that had an answer.
abbrev pub text_after : ℕ → Action → Answer → Text → Text
text_after id (update i new) r text = if i == id && is_number (pos id) r then new else text
text_after id _ r text = text

-- The text after the requests, the last update that was answered by the identifier.
abbrev pub last_text : ℕ → List Action → List Answer → Text → Text
last_text id (a ∷ more) (r ∷ answers) text = last_text id more answers (text_after id a r text)
last_text id _ _ text = text

has_entry-entry_at :
    (id : ℕ) (j : Journal) (e : DiaryEntry) → entry_at id j ≡ some e → has_entry id j ≡ true
has_entry-entry_at id [] e h = ground arith
has_entry-entry_at id (f ∷ j) e h = ground (arith, has_entry-entry_at id j e)

entry_at-append :
    (id : ℕ) (j k : Journal) (e : DiaryEntry)
    → entry_at id j ≡ some e
    → entry_at id (j ++ k) ≡ some e
entry_at-append id [] k e h = ground arith
entry_at-append id (f ∷ j) k e h = ground (arith, entry_at-append id j k e)

entry_at-without :
    (id i : ℕ) (j : Journal) → (i == id) ≡ false → entry_at id (without i j) ≡ entry_at id j
entry_at-without id i [] h = refl
entry_at-without id i (f ∷ j) h = ground (arith, entry_at-without id i j h)

pub entry_at-with_text :
    (id i : ℕ) (text : Text) (j : Journal) (e : DiaryEntry)
    → entry_at id j ≡ some e
    → entry_at id (map (with_text i text) j)
      ≡ some (record e { text = if i == id then text else e.text })
entry_at-with_text id i text [] e h = ground arith
entry_at-with_text id i text (f ∷ j) e h = ground (arith, entry_at-with_text id i text j e)

refused-text_after :
    (id : ℕ) (a : Action) (text : Text) → text_after id a (number (neg 1)) text ≡ text
refused-text_after id (post new timestamp) text = refl
refused-text_after id (update i new) text = ground arith
refused-text_after id (delete i) text = refl
refused-text_after id entries text = refl

updated-text_after :
    (id i : ℕ) (new : Text) (j : Journal) (e : DiaryEntry)
    → entry_at id j ≡ some e
    → (if i == id then new else e.text)
      ≡ text_after id (update i new) (number (if has_entry i j then pos i else neg 1)) e.text
updated-text_after id i new j e at = elim (Bool-cases (i == id)) [
  | inl same ↦ let eq = (==_iff i id).0 same in rw (eq, has_entry-entry_at id j e at) (ground arith)
  | inr other ↦ rw other refl
]

-- A request that does not delete the entry keeps it.
pub Step-entry_at :
    {m : Moment} {j j' : Journal} {a : Action} {r : Answer} (id : ℕ) (e : DiaryEntry)
    → Step m j a r j'
    → deletes id a ≡ false
    → entry_at id j ≡ some e
    → entry_at id j' ≡ some (record e { text = text_after id a r e.text })
Step-entry_at id e (refused j a text carries fails) kept at =
    at ∙ ap (λ (t : Text). some (record e { text = t })) (sym (refused-text_after id a e.text))
Step-entry_at id e (posted j n timestamp text b64 seal first fresh) kept at =
    entry_at-append id j _ e at
Step-entry_at id e (updated j i text b64 seal) kept at =
    entry_at-with_text id i text j e at
    ∙ ap (λ (t : Text). some (record e { text = t })) (updated-text_after id i text j e at)
Step-entry_at id e (deleted j i) kept at = entry_at-without id i j kept ∙ at
Step-entry_at id e (fetched j es perm order) kept at = at

pub Steps-entry_at :
    {moments : List Moment} {j j' : Journal} {actions : List Action} {answers : List Answer}
    (id : ℕ) (e : DiaryEntry)
    → Steps moments j actions answers j'
    → All (λ a. deletes id a ≡ false) actions
    → entry_at id j ≡ some e
    → entry_at id j' ≡ some (record e { text = last_text id actions answers e.text })
Steps-entry_at id e (done j) kept at = at
Steps-entry_at id e (next {a = a} {r = r} step steps) kept at =
    Steps-entry_at id (record e { text = text_after id a r e.text }) steps kept.1
      (Step-entry_at id e step kept.0 at)
