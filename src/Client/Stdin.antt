-- ===== src/Client/Stdin.antt =====
-- `read_stdin` of client/main.c. The input is the bytes that the standard input gives until its end;
-- fread takes as many as it has room for, or what is left. `heap` answers the calls of realloc, and
-- an empty list means that they succeed.
use diary.Prelude.{
  ℕ, zero, suc, ◌+◌, ◌-◌, ◌*◌, ◌<◌, ◌≡◌, refl, ap, ◌∙◌, Bool, Bool-cases, inl, inr, true, List, [],
  ◌∷◌, ◌++◌, Option, none, some,
}
use diary.Prelude.{
  append-nil, append_assoc, arith, Text, length, length-append, length-take, length-drop, take,
  drop, ◌==◌, if◌then◌else◌,
}
use diary.Server.Handler.{head_ok, tail_ok}

-- The buffer: its bytes so far and its size.
pub record Buffer : Type 0 where
  pub buf : Text
  pub cap : ℕ

-- The loop, on fuel, until fread gives nothing; `none` when memory, or the fuel, runs out.
unfoldable pub read_loop : ℕ → List Bool → Text → Buffer → Option Buffer
read_loop zero heap input b = none
read_loop (suc fuel) heap input b =
    let room = b.cap - length b.buf in
    let buf = b.buf ++ take room input in
    let doubled =
      read_loop fuel (tail_ok heap) (drop room input) (record { buf = buf; cap = b.cap * 2 }) in
    let same = read_loop fuel heap (drop room input) (record { buf = buf; cap = b.cap }) in
    if length (take room input) == 0
    then some b
    else if length buf == b.cap
    then if head_ok heap then doubled else none
    else same

unfoldable pub read_stdin : Bool → List Bool → Text → Option Buffer
unfolding read_loop
read_stdin malloc_ok heap input =
    if malloc_ok
    then read_loop (length input + 1) heap input (record { buf = []; cap = 4096 })
    else none

-- The buffer holds the text, and its terminating NUL has room behind it.
abbrev pub Holds : Text → Buffer → Type 0
Holds text b = (b.buf ≡ text) × (length b.buf < b.cap)

take-drop : (n : ℕ) (s : Text) → take n s ++ drop n s ≡ s
take-drop zero s = refl
take-drop (suc n) [] = refl
take-drop (suc n) (x ∷ s) = ap (λ t. x ∷ t) (take-drop n s)

nothing_left : (s : Text) → length s ≡ 0 → s ≡ []
nothing_left [] h = refl
nothing_left (x ∷ s) h = absurd (omega arith)

read_loop_lem :
    (fuel : ℕ) (input : Text) (b : Buffer)
    → length input < fuel
    → length b.buf < b.cap
    → (b' : Buffer) × (read_loop fuel [] input b ≡ some b') × Holds (b.buf ++ input) b'
unfolding read_loop
read_loop_lem zero input b enough h = absurd (omega arith)
read_loop_lem (suc fuel) input b enough h =
    let room = b.cap - length b.buf in
    let got = length-take room input in
    let left = length-drop room input in
    let buf = b.buf ++ take room input in
    let all : buf ++ drop room input ≡ b.buf ++ input =
      append_assoc b.buf (take room input) (drop room input)
      ∙ ap (λ (t : Text). b.buf ++ t) (take-drop room input) in
    let size = length-append b.buf (take room input) in
    elim (Bool-cases (length (take room input) == 0)) [
      | inl e ↦
          let none_left = nothing_left input (ground (arith, got)) in
          (b, rw e, (rw (none_left, append-nil), h))
      | inr e ↦ elim (Bool-cases (length buf == b.cap)) [
        | inl full ↦
            let (b', runs, holds) =
              read_loop_lem fuel (drop room input) (record { buf = buf; cap = b.cap * 2 })
                (ground (arith, got, left)) (ground (arith, size)) in
            (b', rw (e, full) runs, (holds.0 ∙ all, holds.1))
        | inr part ↦
            let (b', runs, holds) =
              read_loop_lem fuel (drop room input) (record { buf = buf; cap = b.cap })
                (ground (arith, got, left)) (ground (arith, got, size)) in
            (b', rw (e, part) runs, (holds.0 ∙ all, holds.1))
      ]
    ]

-- If memory does not run out, `read_stdin` ends with the whole input, however long it is, in a
-- buffer that has room for the terminating NUL.
pub read_stdin_lem :
    (input : Text) → (b : Buffer) × (read_stdin true [] input ≡ some b) × Holds input b
unfolding read_stdin
read_stdin_lem input =
    read_loop_lem (length input + 1) input (record { buf = []; cap = 4096 }) (omega arith)
      (omega arith)
