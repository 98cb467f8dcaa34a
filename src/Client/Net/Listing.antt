-- ===== src/Client/Net/Listing.antt =====
-- The number of entries in a listing of client/net.c.
use mathlib.Core.Option as Opt
use mathlib.Core.Option.{some-injective}
use diary.Prelude.{
  ℕ, zero, suc, ◌≡◌, ◌≢◌, refl, sym, ap, ◌∙◌, Bool, Bool-cases, true, false, inl, inr, not, List,
  [], ◌∷◌, Option, none, some, Option-cases,
}
use diary.Prelude.{Text, codes, drop, length, arith, if◌then◌else◌}
use diary.Prelude.Int.{ℤ, pos, negsuc, is_positive}
use diary.Libc.Str.{strncmp_eq}
use diary.Libc.Decimal.{atoi}
use diary.Libc.Sort.{qsort}
use diary.Libc.Sort.Length.{length-qsort}
use diary.Client.Net.{
  Wire, DiaryEntry, net_get_entries, read_entry, read_entries, to_nat, entry_cmp_newest_first,
}

-- A count that is not positive.
no_count : (n : ℤ) → is_positive n ≡ false → 0 ≡ to_nat n
no_count (pos n) h = ground arith
no_count (negsuc n) h = refl

-- What a listing makes of the header, the count and the entries read.
abbrev counted_entries : Bool → ℤ → Option (List DiaryEntry) → Option (List DiaryEntry)
counted_entries starts n read =
    if not starts
    then none
    else if not (is_positive n)
    then some []
    else Opt.map (qsort entry_cmp_newest_first) read

counted :
    (starts : Bool) (n : ℤ) (read : Option (List DiaryEntry))
    → ((es : List DiaryEntry) → read ≡ some es → length es ≡ to_nat n)
    → counted_entries starts n read ≢ none
    → (starts ≡ true)
      × ((es : List DiaryEntry) × (counted_entries starts n read ≡ some es)
          × (length es ≡ to_nat n))
counted false n read len h = absurd (h refl)
counted true n none len h = elim (Bool-cases (is_positive n)) [
  | inl e ↦ absurd (h (rw e refl))
  | inr e ↦ (refl, ([], rw e refl, no_count n e))
]
counted true n (some es) len h = elim (Bool-cases (is_positive n)) [
  | inl e ↦ (
    refl,
    (
      qsort entry_cmp_newest_first es,
      rw e refl,
      length-qsort entry_cmp_newest_first es ∙ len es refl,
    ),
  )
  | inr e ↦ (refl, ([], rw e refl, no_count n e))
]

module _ (w : Wire) where
  map_cons :
      (e : DiaryEntry) (o : Option (List DiaryEntry)) (es : List DiaryEntry)
      → Opt.map (λ xs. e ∷ xs) o ≡ some es
      → (xs : List DiaryEntry) × (o ≡ some xs) × (length es ≡ suc (length xs))
  map_cons e none es h = absurd (cc)
  map_cons e (some xs) es h = (xs, refl, ap length (sym (some-injective _ _ h)))

  -- The loop gives all the entries that were announced, or none.
  length-read_entries :
      (n : ℕ) (c : w.Conn) (es : List DiaryEntry) → (read_entries w n c).0 ≡ some es → length es ≡ n
  unfolding read_entries
  length-read_entries zero c es h = ap length (sym (some-injective _ _ h))
  length-read_entries (suc n) c es h = elim (Option-cases (w.proto_recv_line_dyn c).0) [
    | inl e ↦ let run : (read_entries w (suc n) c).0 ≡ none = rw (e, read_entries) refl in cc
    | inr (l, e) ↦ elim (Option-cases (read_entry w l)) [
      | inl e' ↦ let run : (read_entries w (suc n) c).0 ≡ none = rw (e, e', read_entries) refl in cc
      | inr (x, e') ↦
          let run : (read_entries w (suc n) c).0
              ≡ Opt.map (λ xs. x ∷ xs) (read_entries w n (w.proto_recv_line_dyn c).1).0 =
            rw (e, e', read_entries) refl in
          let (xs, rest, len) = map_cons x _ es (sym run ∙ h) in
          len ∙ ap suc (length-read_entries n (w.proto_recv_line_dyn c).1 xs rest)
    ]
  ]

  -- The entries, from what the wire answers.
  abbrev pub listing : Bool × w.Conn → Option Text × w.Conn → Option (List DiaryEntry)
  listing sent hdr = if not sent.0 then none else elim hdr.0 [
    | none ↦ none
    | some h ↦
        let n = atoi (drop 8 h) in
        counted_entries (strncmp_eq h (codes "ENTRIES ")) n (read_entries w (to_nat n) hdr.1).0
  ]

  pub listing_lem :
      (sent : Bool × w.Conn) (hdr : Option Text × w.Conn)
      → listing sent hdr ≢ none
      → (sent.0 ≡ true)
        × ((l : Text) × (hdr.0 ≡ some l)
            × (strncmp_eq l (codes "ENTRIES ") ≡ true)
            × ((es : List DiaryEntry) × (listing sent hdr ≡ some es)
                × (length es ≡ to_nat (atoi (drop 8 l)))))
  listing_lem (false, c1) hdr h = absurd (h refl)
  listing_lem (true, c1) (none, c2) h = absurd (h refl)
  listing_lem (true, c1) (some l, c2) h =
      let (starts, found) =
        counted (strncmp_eq l (codes "ENTRIES ")) (atoi (drop 8 l))
          (read_entries w (to_nat (atoi (drop 8 l))) c2).0
          (length-read_entries (to_nat (atoi (drop 8 l))) c2) h in
      (refl, (l, refl, starts, found))

  pub listing_run :
      (c : w.Conn)
      → (net_get_entries w true c).0
        ≡ listing
            (w.proto_send_line (codes "GET") c)
            (w.proto_recv_line 64 (w.proto_send_line (codes "GET") c).1)
  unfolding net_get_entries
  listing_run c = ground arith
