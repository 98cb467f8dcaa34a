-- ===== src/Android/Crypto/Seal.antt =====
-- Signing, sealing and opening in diary_crypto.c.
use diary.Prelude.{
  ℕ, ◌+◌, ◌^◌, ◌<◌, ◌≤◌, ◌≡◌, refl, ap, sym, ◌∙◌, false, [], ◌∷◌, Text, length, take-eq_of_le, take,
  arith, ltb,
}
use diary.Prelude.Int.{pos, to_int, to_int-eq_of_IsInt}
use diary.Android.Crypto.{
  Jni, Libsodium, auth_sk_len, auth_sig_len, enc_pk_len, crypto_box_sealbytes, sign_challenge, seal,
}
use diary.Android.Crypto.Laws.{IsJni, Keeps, Keeps-trans, get-Keeps}
use diary.Android.Crypto.Keys.{IsLibsodium, Gives, fill-Gives}

pub enough : (m n : ℕ) → n ≤ m → ltb m n ≡ false
enough m n h = ground arith

module _ (j : Jni) (laws : IsJni j) where
  abbrev pub got_of : j.JbyteArray → j.Env → Text
  got_of a e = (j.get_byte_array_elements a e).0

  abbrev pub after : j.JbyteArray → j.Env → j.Env
  after a e = (j.get_byte_array_elements a e).1

  -- The bytes of an array, and of another behind it.
  pub got_later : (a b : j.JbyteArray) (e : j.Env) → got_of b (after a e) ≡ laws.bytes b e
  got_later a b e = laws.got b (after a e) ∙ laws.get_keeps a b e

  -- As many as GetArrayLength tells, then, is all.
  pub got_whole :
      (a : j.JbyteArray) (e : j.Env)
      → take (j.get_array_length a (after a e)) (got_of a e) ≡ laws.bytes a e
  got_whole a e =
      let size : length (got_of a e) ≤ j.get_array_length a (after a e) =
        rw (laws.got a e, laws.array_length a (after a e), laws.get_keeps a a e) (omega arith) in
      take-eq_of_le _ _ size ∙ laws.got a e

  pub two_keep : (a b : j.JbyteArray) (e : j.Env) → Keeps j laws e (after b (after a e))
  two_keep a b e =
      Keeps-trans j laws e (after a e) _ (get-Keeps j laws a e) (get-Keeps j laws b (after a e))

  module _ (so : Libsodium) (sodium : IsLibsodium so) where
    -- The signature of the whole challenge, by the first 64 bytes of the key.
    pub sign_challenge-Gives :
        (c a : j.JbyteArray) (e : j.Env)
        → auth_sk_len ≤ length (laws.bytes a e)
        → Gives j laws so sodium
            (sign_challenge j so c a e)
            e
            (so.crypto_sign_detached (laws.bytes c e) (take 64 (laws.bytes a e)))
    unfolding sign_challenge
    sign_challenge-Gives c a e long =
        let e2 = after a (after c e) in
        let sk = got_of a (after c e) in
        let challenge = take (j.get_array_length c (after c e)) (got_of c e) in
        let long1 : ltb (length sk) auth_sk_len ≡ false = enough _ _ (rw (got_later c a e) long) in
        rw⁻¹ (got_whole c e, got_later c a e)
          (fill-Gives j laws so sodium (sign_challenge j so c a e) auth_sig_len
            (so.crypto_sign_detached challenge (take 64 sk)) ((c, got_of c e) ∷ (a, sk) ∷ []) e e2
            (rw long1 refl) (sodium.sign_length challenge (take 64 sk)) (two_keep c a e)
            (omega (arith, laws.get_held c e, laws.get_held a (after c e))))

    -- The ciphertext of the whole message for the first 32 bytes of the key, if its length fits `jsize`.
    pub seal-Gives :
        (seed : Text) (m p : j.JbyteArray) (e : j.Env)
        → enc_pk_len ≤ length (laws.bytes p e)
        → length (laws.bytes m e) + crypto_box_sealbytes < 2 ^ 31
        → Gives j laws so sodium
            (seal j so seed m p e)
            e
            (so.crypto_box_seal seed (laws.bytes m e) (take 32 (laws.bytes p e)))
    unfolding seal
    seal-Gives seed m p e long small =
        let e2 = after p (after m e) in
        let pk = got_of p (after m e) in
        let len = j.get_array_length m (after m e) in
        let msg = take len (got_of m e) in
        let whole : msg ≡ laws.bytes m e = got_whole m e in
        let long1 : ltb (length pk) enc_pk_len ≡ false = enough _ _ (rw (got_later m p e) long) in
        let len_is : len ≡ length (laws.bytes m e) =
          laws.array_length m (after m e) ∙ ap length (laws.get_keeps m m e) in
        let n = len + crypto_box_sealbytes in
        let cast : to_int (pos n) ≡ pos n = to_int-eq_of_IsInt (pos n) (rw len_is small) in
        let size : length (so.crypto_box_seal seed msg (take 32 pk)) ≡ n =
          sodium.seal_length seed msg (take 32 pk)
          ∙ ap (λ l. l + crypto_box_sealbytes) (ap length whole ∙ sym len_is) in
        rw⁻¹ (whole, got_later m p e)
          (fill-Gives j laws so sodium (seal j so seed m p e) n
            (so.crypto_box_seal seed msg (take 32 pk)) ((m, got_of m e) ∷ (p, pk) ∷ []) e e2
            (rw (long1, cast) refl) size (two_keep m p e)
            (omega (arith, laws.get_held m e, laws.get_held p (after m e))))
