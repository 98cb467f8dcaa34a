-- ===== src/Tests/Android.antt =====
-- The cryptography of the Android application at concrete inputs, on arrays that stand in a table.
use diary.Prelude.{
  ℕ, zero, suc, ◌-◌, ◌<◌, ◌≡◌, ◌≢◌, refl, inr, ap, sym, Bool, true, false, [], ◌∷◌, ◌++◌, none,
  some,
}
use diary.Prelude.{arith, Text, codes, length, length-drop, drop, ◌==◌, if◌then◌else◌}
use diary.Prelude.Int.{ℤ, pos, neg}
use diary.Android.Crypto.{Jni, Libsodium, enc_pk_from_sk, seal, unseal}
use diary.Android.Crypto.Laws.{IsJni, Keeps}
use diary.Android.Crypto.Keys.{IsLibsodium}
use diary.Android.Crypto.Unseal.{Fits, unseal_null, unseal-seal}

record Table : Type 0 where
  next : ℕ
  content : ℕ → Text
  held : ℕ

abbrev zeros : ℕ → Text
zeros zero = []
zeros (suc n) = 0 ∷ zeros n

length-zeros : (n : ℕ) → length (zeros n) ≡ n
length-zeros zero = refl
length-zeros (suc n) = ap suc (length-zeros n)

abbrev size_of : ℤ → ℕ
size_of (pos n) = n
size_of _ = 0

abbrev put : ℕ → Text → (ℕ → Text) → ℕ → Text
put a t content b = if b == a then t else content b

put_same : (a : ℕ) (t : Text) (content : ℕ → Text) → put a t content a ≡ t
put_same a t content = ground arith

put_other : (a b : ℕ) (t : Text) (content : ℕ → Text) → b ≢ a → put a t content b ≡ content b
put_other a b t content h = ground arith

abbrev release : ℕ → Text → Bool → Table → Table
release a t true e = record e { content = put a t e.content; held = e.held - 1 }
release a t false e = record e { held = e.held - 1 }

abbrev jni : Jni
jni = record {
  Env = Table;
  JbyteArray = ℕ;
  get_array_length = λ a e. length (e.content a);
  new_byte_array = λ n e.
      (e.next, record e { next = suc e.next; content = put e.next (zeros (size_of n)) e.content });
  get_byte_array_elements = λ a e. (e.content a, record e { held = suc e.held });
  release_byte_array_elements = release;
}

release_Live_lem :
    (a b : ℕ) (t : Text) (mode : Bool) (e : Table) → b < e.next → b < (release a t mode e).next
release_Live_lem a b t true e h = h
release_Live_lem a b t false e h = h

release_held_lem :
    (a : ℕ) (t : Text) (mode : Bool) (e : Table) (n : ℕ)
    → e.held ≡ suc n
    → (release a t mode e).held ≡ n
release_held_lem a t true e n h = omega arith
release_held_lem a t false e n h = omega arith

new_length_lem : (n k : ℕ) (f : ℕ → Text) → length (put k (zeros n) f k) ≡ n
new_length_lem n k f = ground (arith, length-zeros n)

abbrev laws : IsJni jni
laws = record {
  Live = λ a e. a < e.next;
  bytes = λ a e. e.content a;
  held = λ e. e.held;
  array_length = λ a e. refl;
  got = λ a e. refl;
  get_keeps = λ a b e. refl;
  get_Live = λ a b e h. h;
  get_held = λ a e. refl;
  new_length = λ n e. new_length_lem n e.next e.content;
  new_fresh = λ n b e h. (λ same. omega arith);
  new_keeps = λ n b e h. put_other e.next b _ e.content (λ same. omega arith);
  new_Live = λ n b e h. omega arith;
  new_is_Live = λ n e. omega arith;
  new_held = λ n e. refl;
  aborted = λ a b t e. refl;
  copied = λ a t e live size. put_same a t e.content;
  copied_keeps = λ a b t e other. put_other a b t e.content (λ same. other (sym same));
  release_Live = λ a b t mode e h. release_Live_lem a b t mode e h;
  release_held = λ a t mode e n h. release_held_lem a t mode e n h;
}

abbrev open_it : Text → ℤ × Text
open_it [] = (neg 1, [])
open_it (b ∷ c) = (if b == 7 then pos 0 else neg 1, drop 47 c)

-- A box that puts 48 bytes in front, the first of which is 7, and whose keys are all zeros.
abbrev box : Libsodium
box = record {
  sodium_init = pos 0;
  crypto_scalarmult_base = λ sk. zeros 32;
  crypto_sign_detached = λ m sk. zeros 64;
  crypto_box_seal = λ seed m pk. 7 ∷ (zeros 47 ++ m);
  crypto_box_seal_open = λ c pk sk. open_it c;
}

open_length_lem : (c : Text) → length (open_it c).1 ≡ length c - 48
open_length_lem [] = refl
open_length_lem (b ∷ c) = omega (arith, length-drop 47 c)

abbrev box_laws : IsLibsodium box
box_laws = record {
  base_length = λ sk. refl;
  sign_length = λ m sk. refl;
  seal_length = λ seed m pk. omega arith;
  open_length = λ c pk sk. open_length_lem c;
  opens = λ seed m sk size. refl;
}

-- The message is the array 0 and the secret key the array 1.
abbrev heap : Table
heap = record { next = 2; content = λ a. if a == 0 then codes "dear diary" else zeros 32; held = 0 }

unseal-seal_example :
    (p c r : ℕ) × (e1 e2 e' : Table) × (enc_pk_from_sk jni box 1 heap ≡ some (p, e1))
    × (seal jni box [] 0 p e1 ≡ some (c, e2))
    × (unseal jni box c p 1 e2 ≡ some (some r, e'))
    × (e'.content r ≡ codes "dear diary")
    × Keeps jni laws heap e'
    × (e'.held ≡ 0)
unseal-seal_example =
    unseal-seal jni laws box box_laws [] 0 1 heap (omega arith) (omega arith) refl (omega arith)

-- The array 0 is a text that was not sealed, but is long enough.
abbrev unsealed : Table
unsealed = record { next = 3; content = λ a. if a == 0 then zeros 60 else zeros 32; held = 0 }

abbrev all_fit : Fits jni laws box box_laws 0 1 2 unsealed
all_fit = record {
  pk_fits = omega arith;
  sk_fits = omega arith;
  long = omega arith;
  small = omega arith;
}

not_opened : neg 1 ≢ pos 0
not_opened e = cc

unseal_null_example :
    (e' : Table) × (unseal jni box 0 1 2 unsealed ≡ some (none, e'))
    × Keeps jni laws unsealed e'
    × (e'.held ≡ 0)
unseal_null_example = unseal_null jni laws box box_laws 0 1 2 unsealed (inr (all_fit, not_opened))
