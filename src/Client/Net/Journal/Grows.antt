-- ===== src/Client/Net/Journal/Grows.antt =====
-- A journal that has lost no entry.
use diary.Prelude.{ℕ, ◌≡◌, refl, false, some}
use diary.Client.Net.{DiaryEntry}
use diary.Client.Net.Journal.{Journal, Action, Answer, Moment, Step}
use diary.Client.Net.Journal.Kept.{entry_at, deletes, Step-entry_at}

-- Every entry of the first journal is in the second, under its identifier and its timestamp.
abbrev pub Grows : Journal → Journal → Type 0
Grows j j' =
    (id : ℕ) (e : DiaryEntry)
    → entry_at id j ≡ some e
    → (e' : DiaryEntry) × (entry_at id j' ≡ some e') × (e'.timestamp ≡ e.timestamp)

pub Grows-refl : (j : Journal) → Grows j j
Grows-refl j id e at = (e, at, refl)

-- A request that is no deletion.
pub Grows-Step :
    {m : Moment} {j j' : Journal} {a : Action} {r : Answer} (j0 : Journal)
    → Step m j a r j'
    → ((id : ℕ) → deletes id a ≡ false)
    → Grows j0 j
    → Grows j0 j'
Grows-Step j0 step keeps grows id e at =
    let (e', there, same) = grows id e at in (_, Step-entry_at id e' step (keeps id) there, same)
