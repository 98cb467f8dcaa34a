-- ===== src/Client/Main/Arguments.antt =====
-- The options of client/main.c.
use diary.Prelude.{◌≡◌, refl, Bool-cases, inl, inr, true, false, List, [], ◌∷◌, ◌++◌, ◌⊎◌, ap}
use diary.Prelude.{arith, All}
use diary.Prelude.Int.{ℤ, pos, is_positive}
use diary.Libc.Decimal.{atoi}
use diary.Client.Main.{
  Calendar, parse_entry_at, Opt, host_is, port_is, auth_is, enc_is, entry_at_is, post, version,
  unknown, Options, Parsed, go_on, stops, read_options,
}

-- An option that the loop takes and goes on; a date must be one behind 1970.
abbrev pub Taken : Calendar → Opt → Type 0
Taken cal (entry_at_is v) = is_positive (parse_entry_at cal v) ≡ true
Taken cal version = true ≡ false
Taken cal unknown = true ≡ false
Taken cal _ = true ≡ true

-- What the options ask for; the last one of a kind counts.
abbrev pub apply : Calendar → Options → List Opt → Options
apply cal o [] = o
apply cal o (host_is v ∷ opts) = apply cal (record o { host = v }) opts
apply cal o (port_is v ∷ opts) = apply cal (record o { port = atoi v }) opts
apply cal o (auth_is v ∷ opts) = apply cal (record o { auth_sk = v }) opts
apply cal o (enc_is v ∷ opts) = apply cal (record o { enc_sk = v }) opts
apply cal o (entry_at_is v ∷ opts) = apply cal (record o { entry_at = parse_entry_at cal v }) opts
apply cal o (post ∷ opts) = apply cal (record o { post_mode = true }) opts
apply cal o (_ ∷ opts) = apply cal o opts

-- Options that are all taken are read as they ask, and then what follows them is read.
pub read_options-apply :
    (cal : Calendar) (o : Options) (opts rest : List Opt)
    → All (Taken cal) opts
    → read_options cal o (opts ++ rest) ≡ read_options cal (apply cal o opts) rest
unfolding read_options
read_options-apply cal o [] rest h = refl
read_options-apply cal o (host_is v ∷ opts) rest h =
    read_options-apply cal (record o { host = v }) opts rest h.1
read_options-apply cal o (port_is v ∷ opts) rest h =
    read_options-apply cal (record o { port = atoi v }) opts rest h.1
read_options-apply cal o (auth_is v ∷ opts) rest h =
    read_options-apply cal (record o { auth_sk = v }) opts rest h.1
read_options-apply cal o (enc_is v ∷ opts) rest h =
    read_options-apply cal (record o { enc_sk = v }) opts rest h.1
read_options-apply cal o (entry_at_is v ∷ opts) rest h =
    rw (h.0) (read_options-apply cal (record o { entry_at = parse_entry_at cal v }) opts rest h.1)
read_options-apply cal o (post ∷ opts) rest h =
    read_options-apply cal (record o { post_mode = true }) opts rest h.1
read_options-apply cal o (version ∷ opts) rest h = ground arith
read_options-apply cal o (unknown ∷ opts) rest h = ground arith

-- A date that is positive, or none.
abbrev pub IsEntryDate : ℤ → Type 0
IsEntryDate t = (t ≡ pos 0) ⊎ (is_positive t ≡ true)

entry_at_of : (o o' : Options) → go_on o ≡ go_on o' → o.entry_at ≡ o'.entry_at
entry_at_of o o' h = ap (λ (p : Parsed). elim p [ go_on x ↦ x.entry_at | stops _ _ ↦ pos 0 ]) h

-- Whatever the options are, in any order and number, the loop goes on only with a date for new entries
-- that is positive, or 0, which stands for none, if the date that it starts with is one of these.
pub read_options-IsEntryDate :
    (cal : Calendar) (o o' : Options) (opts : List Opt)
    → IsEntryDate o.entry_at
    → read_options cal o opts ≡ go_on o'
    → IsEntryDate o'.entry_at
unfolding read_options
read_options-IsEntryDate cal o o' [] d h = rw⁻¹ (entry_at_of o o' h) d
read_options-IsEntryDate cal o o' (host_is v ∷ opts) d h =
    read_options-IsEntryDate cal (record o { host = v }) o' opts d h
read_options-IsEntryDate cal o o' (port_is v ∷ opts) d h =
    read_options-IsEntryDate cal (record o { port = atoi v }) o' opts d h
read_options-IsEntryDate cal o o' (auth_is v ∷ opts) d h =
    read_options-IsEntryDate cal (record o { auth_sk = v }) o' opts d h
read_options-IsEntryDate cal o o' (enc_is v ∷ opts) d h =
    read_options-IsEntryDate cal (record o { enc_sk = v }) o' opts d h
read_options-IsEntryDate cal o o' (entry_at_is v ∷ opts) d h =
    elim (Bool-cases (is_positive (parse_entry_at cal v))) [
      | inl e ↦
          read_options-IsEntryDate cal (record o { entry_at = parse_entry_at cal v }) o' opts
            (inr e) (ground arith)
      | inr e ↦ ground arith
    ]
read_options-IsEntryDate cal o o' (post ∷ opts) d h =
    read_options-IsEntryDate cal (record o { post_mode = true }) o' opts d h
read_options-IsEntryDate cal o o' (version ∷ opts) d h = ground arith
read_options-IsEntryDate cal o o' (unknown ∷ opts) d h = ground arith
