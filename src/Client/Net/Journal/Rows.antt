-- ===== src/Client/Net/Journal/Rows.antt =====
-- The rows of a user as the journal that the user's client reads.
use diary.Prelude.{ℕ, zero, suc, ◌<◌, ◌≡◌, refl, true, not, List, [], ◌∷◌, some, map}
use diary.Prelude.{arith, Text, take, keep, All, All-map, ◌==◌, if_cases}
use diary.Prelude.Int.{pos, ltb_ℤ}
use diary.Server.Sqlite.{Row}
use diary.Server.Handler.Change.{has_id, with_payload}
use diary.Server.Handler.Collect.{Fits}
use diary.Client.Net.{Wire, entry_text}
use diary.Client.Net.Order.{IsId}
use diary.Client.Net.Read.{IsSealed, entry_of}
use diary.Client.Net.Journal.{Journal, has_entry, with_text, without}

-- The entry of sealed text that can be opened.
pub entry_text-sealed :
    (w : Wire) (b64 text : Text) → w.proto_unseal_new b64 ≡ some text → entry_text w b64 ≡ text
unfolding entry_text
entry_text-sealed w b64 text opens = rw (opens, entry_text)

module _ (w : Wire) where
  abbrev pub journal_of : List Row → Journal
  journal_of = map (entry_of w)

  pub has_entry-journal_of : (id : ℕ) (rs : List Row) → has_entry id (journal_of rs) ≡ has_id id rs
  unfolding has_id
  has_entry-journal_of id [] = refl
  has_entry-journal_of id (r ∷ rs) = ground (arith, has_entry-journal_of id rs)

  with_text-entry_of :
      (id : ℕ) (b64 text : Text) (r : Row)
      → entry_text w b64 ≡ text
      → entry_of w (with_payload id b64 r) ≡ with_text id text (entry_of w r)
  with_text-entry_of id b64 text r opens = ground arith

  pub journal_of-with_payload :
      (id : ℕ) (b64 text : Text) (rs : List Row)
      → entry_text w b64 ≡ text
      → journal_of (map (with_payload id b64) rs) ≡ map (with_text id text) (journal_of rs)
  journal_of-with_payload id b64 text [] opens = refl
  journal_of-with_payload id b64 text (r ∷ rs) opens =
      rw (with_text-entry_of id b64 text r opens, journal_of-with_payload id b64 text rs opens)

  pub journal_of-keep :
      (id : ℕ) (rs : List Row)
      → journal_of (keep (λ r. not (r.id == id)) rs) ≡ without id (journal_of rs)
  journal_of-keep id [] = refl
  journal_of-keep id (r ∷ rs) = ground (arith, journal_of-keep id rs)

  pub IsId-journal_of : (n : ℕ) (rs : List Row) → All Fits rs → All IsId (journal_of (take n rs))
  IsId-journal_of zero rs h = tt
  IsId-journal_of (suc n) [] h = tt
  IsId-journal_of (suc n) (r ∷ rs) h = ((r.id, refl, h.0.0), IsId-journal_of n rs h.1)

  -- What lies below a number in the rows does so in the journal.
  pub below-journal_of :
      (id : ℕ) (rs : List Row)
      → All (λ r. r.id < id) rs
      → All (λ e. ltb_ℤ e.id (pos id) ≡ true) (journal_of rs)
  below-journal_of id rs =
      All-map (λ r. r.id < id) (λ e. ltb_ℤ e.id (pos id) ≡ true) (entry_of w) rs
        (λ r lt. ground arith)

-- New data leaves the numbers of a row.
pub Fits-with_payload :
    (id : ℕ) (b64 : Text) (rs : List Row) → All Fits rs → All Fits (map (with_payload id b64) rs)
Fits-with_payload id b64 rs =
    All-map Fits Fits (with_payload id b64) rs
      (λ r h. if_cases Fits (r.id == id) _ r (λ _. h) (λ _. h))

pub IsSealed-with_payload :
    (id : ℕ) (b64 : Text) (rs : List Row)
    → IsSealed (record { id = id; auth_pubkey = []; timestamp = pos 0; payload = b64 })
    → All IsSealed rs
    → All IsSealed (map (with_payload id b64) rs)
IsSealed-with_payload id b64 rs sealed =
    All-map IsSealed IsSealed (with_payload id b64) rs
      (λ r h. if_cases IsSealed (r.id == id) _ r (λ _. sealed) (λ _. h))
