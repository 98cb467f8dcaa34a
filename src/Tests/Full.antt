-- ===== src/Tests/Full.antt =====
-- A user who has as many entries as a listing shows.
use diary.Prelude.{ℕ, zero, suc, true, List, [], ◌∷◌, codes}
use diary.Prelude.Int.{pos}
use diary.Server.Sqlite.{Row}
use diary.Tests.Net.{bob, Wired}

abbrev note : Row
note = record { id = 7; auth_pubkey = bob; timestamp = pos 100; payload = codes "A" }

copies : ℕ → List Row
copies zero = []
copies (suc n) = note ∷ copies n

abbrev full : Wired
full = record {
  storage = record { file = record { users = []; entries = copies 1024 }; handle = true };
  incoming = [];
}
