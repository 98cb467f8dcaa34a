-- ===== src/Android/Crypto/Unseal.antt =====
-- Opening what is sealed, in diary_crypto.c.
use diary.Prelude.{
  ℕ, ◌+◌, ◌-◌, ◌^◌, ◌<◌, ◌≤◌, ◌≡◌, ◌≢◌, refl, ap, ◌∙◌, ◌⊎◌, inl, inr, true, false, not, List, [],
  ◌∷◌, Text, none, some, length, take-eq_of_le, take, arith, ltb, if◌then◌else◌,
}
use diary.Prelude.Int.{ℤ, pos, negsuc, to_int, to_int-eq_of_IsInt, eq_ℤ}
use diary.Android.Crypto.{
  Jni, Libsodium, enc_pk_len, enc_sk_len, crypto_box_sealbytes, seal, unseal, enc_pk_from_sk,
}
use diary.Android.Crypto.Laws.{
  IsJni, Keeps, Keeps-trans, get-Keeps, aborts, aborts-Keeps, aborts_held, fill, fill_lem,
}
use diary.Android.Crypto.Keys.{IsLibsodium, enc_pk_from_sk-Gives}
use diary.Android.Crypto.Seal.{enough, got_of, after, got_later, got_whole, two_keep, seal-Gives}

eq_ℤ-ne : (a b : ℤ) → a ≢ b → eq_ℤ a b ≡ false
eq_ℤ-ne (pos m) (pos n) h = ground (arith, λ (e : m ≡ n). h (ap pos e))
eq_ℤ-ne (pos m) (negsuc n) h = refl
eq_ℤ-ne (negsuc m) (pos n) h = refl
eq_ℤ-ne (negsuc m) (negsuc n) h = ground (arith, λ (e : m ≡ n). h (ap negsuc e))

module _ (j : Jni) (laws : IsJni j) (so : Libsodium) (sodium : IsLibsodium so) where
  abbrev opened : j.JbyteArray → j.JbyteArray → j.JbyteArray → j.Env → ℤ × Text
  opened c p s e =
      so.crypto_box_seal_open (laws.bytes c e) (take 32 (laws.bytes p e)) (take 32 (laws.bytes s e))

  -- The keys have their lengths, and the text has the length of one that is sealed.
  pub record Fits (c p s : j.JbyteArray) (e : j.Env) : Type 0 where
    pub pk_fits : enc_pk_len ≤ length (laws.bytes p e)
    pub sk_fits : enc_sk_len ≤ length (laws.bytes s e)
    pub long : crypto_box_sealbytes ≤ length (laws.bytes c e)
    pub small : length (laws.bytes c e) < 2 ^ 31

  module _ (c p s : j.JbyteArray) (e : j.Env) where
    abbrev e3 : j.Env
    e3 = after j laws s (after j laws p (after j laws c e))

    abbrev inputs : List (j.JbyteArray × Text)
    inputs = (c, got_of j laws c e) ∷ (p, laws.bytes p e) ∷ (s, laws.bytes s e) ∷ []

    abbrev size : ℕ
    size = length (laws.bytes c e) - crypto_box_sealbytes

    abbrev done : j.Env
    done = fill j laws size (opened c p s e).1 inputs e3

    len_is : j.get_array_length c (after j laws c e) ≡ length (laws.bytes c e)
    len_is = laws.array_length c (after j laws c e) ∙ ap length (laws.get_keeps c c e)

    sk_is : got_of j laws s (after j laws p (after j laws c e)) ≡ laws.bytes s e
    sk_is = got_later j laws p s (after j laws c e) ∙ laws.get_keeps c s e

    keeps3 : Keeps j laws e e3
    keeps3 = Keeps-trans j laws e _ e3 (two_keep j laws c p e) (get-Keeps j laws s _)

    held3 : laws.held e3 ≡ length inputs + laws.held e
    held3 = omega (
      arith,
      laws.get_held c e,
      laws.get_held p (after j laws c e),
      laws.get_held s (after j laws p (after j laws c e)),
    )

    unseal_short :
        length (laws.bytes c e) < crypto_box_sealbytes
        → unseal j so c p s e ≡ some (none, aborts j laws inputs e3)
    unfolding unseal
    unseal_short short =
        let test : ltb (j.get_array_length c (after j laws c e)) crypto_box_sealbytes ≡ true =
          rw len_is (ground arith) in
        rw (test, got_later j laws c p e, sk_is) refl

    unseal_run :
        Fits c p s e
        → unseal j so c p s e ≡ (
            if not (eq_ℤ (opened c p s e).0 (pos 0))
            then some (none, done)
            else some (some (j.new_byte_array (pos size) e3).0, done))
    unfolding unseal
    unseal_run fits =
        let test : ltb (j.get_array_length c (after j laws c e)) crypto_box_sealbytes ≡ false =
          enough _ _ (rw len_is fits.long) in
        let pk_test : ltb (length (got_of j laws p (after j laws c e))) enc_pk_len ≡ false =
          enough _ _ (rw (got_later j laws c p e) fits.pk_fits) in
        let sk_test : ltb (length (got_of j laws s (after j laws p (after j laws c e)))) enc_sk_len
            ≡ false =
          enough _ _ (rw sk_is fits.sk_fits) in
        let cast : to_int (pos (j.get_array_length c (after j laws c e) - crypto_box_sealbytes))
            ≡ pos size =
          rw len_is (to_int-eq_of_IsInt (pos size) (omega (arith, fits.small))) in
        rw (test, pk_test, sk_test, cast, got_whole j laws c e, got_later j laws c p e, sk_is) refl

    -- What is too short to be sealed gives NULL, and so does what libsodium does not open with keys that
    -- have their lengths, of a size that fits `jsize`; no array changes, and no buffer of the call is
    -- held.
    pub unseal_null :
        (length (laws.bytes c e) < crypto_box_sealbytes)
          ⊎ (Fits c p s e × ((opened c p s e).0 ≢ pos 0))
        → (e' : j.Env) × (unseal j so c p s e ≡ some (none, e'))
          × Keeps j laws e e'
          × (laws.held e' ≡ laws.held e)
    unseal_null (inl short) = (
      aborts j laws inputs e3,
      unseal_short short,
      Keeps-trans j laws e e3 _ keeps3 (aborts-Keeps j laws inputs e3),
      aborts_held j laws inputs (laws.held e) e3 held3,
    )
    unseal_null (inr (fits, fails)) =
        let (_, _, keeps, held) =
          fill_lem j laws size (opened c p s e).1 inputs e3 (laws.held e) (sodium.open_length _ _ _)
            held3 in
        let test : eq_ℤ (opened c p s e).0 (pos 0) ≡ false = eq_ℤ-ne _ _ fails in
        (done, unseal_run fits ∙ rw test refl, Keeps-trans j laws e e3 _ keeps3 keeps, held)

    -- What libsodium opens is the bytes of a new array; no array changes, and no buffer is held.
    pub unseal_opens :
        Fits c p s e
        → (opened c p s e).0 ≡ pos 0
        → (r : j.JbyteArray) × (e' : j.Env) × (unseal j so c p s e ≡ some (some r, e'))
          × (laws.bytes r e' ≡ (opened c p s e).1)
          × Keeps j laws e e'
          × (laws.held e' ≡ laws.held e)
    unseal_opens fits works =
        let (bytes, _, keeps, held) =
          fill_lem j laws size (opened c p s e).1 inputs e3 (laws.held e) (sodium.open_length _ _ _)
            held3 in
        (
          _,
          done,
          unseal_run fits ∙ rw works refl,
          bytes,
          Keeps-trans j laws e e3 _ keeps3 keeps,
          held,
        )

  -- libsodium is given the first 32 bytes of the keys.
  opens_again :
      (seed m sk c p s : Text)
      → length sk ≡ enc_sk_len
      → c ≡ so.crypto_box_seal seed m (so.crypto_scalarmult_base sk)
      → p ≡ so.crypto_scalarmult_base sk
      → s ≡ sk
      → so.crypto_box_seal_open c (take 32 p) (take 32 s) ≡ (pos 0, m)
  opens_again seed m sk c p s size c_is p_is s_is =
      let pk = so.crypto_scalarmult_base sk in
      let pk_size : length pk ≡ enc_pk_len = sodium.base_length sk in
      let p_whole : take 32 p ≡ pk = ap (take 32) p_is ∙ take-eq_of_le 32 pk (omega arith) in
      let s_whole : take 32 s ≡ sk = ap (take 32) s_is ∙ take-eq_of_le 32 sk (omega arith) in
      ap (λ (x : Text). so.crypto_box_seal_open x (take 32 p) (take 32 s)) c_is
      ∙ ap (λ (x : Text). so.crypto_box_seal_open (so.crypto_box_seal seed m pk) x (take 32 s))
          p_whole
      ∙ ap (λ (x : Text). so.crypto_box_seal_open (so.crypto_box_seal seed m pk) pk x) s_whole
      ∙ sodium.opens seed m sk size

  -- A message sealed for the public key that is made of a secret key is opened with both keys, in the
  -- state behind these calls: the result is a new array with the message, the secret key and the
  -- message are as they were, and no buffer is held; for a secret key of 32 bytes and a message whose
  -- sealed length fits `jsize`, whatever random bytes are drawn.
  pub unseal-seal :
      (seed : Text) (m s : j.JbyteArray) (e : j.Env)
      → laws.Live m e
      → laws.Live s e
      → length (laws.bytes s e) ≡ enc_sk_len
      → length (laws.bytes m e) + crypto_box_sealbytes < 2 ^ 31
      → (p c r : j.JbyteArray) × (e1 e2 e' : j.Env) × (enc_pk_from_sk j so s e ≡ some (p, e1))
        × (seal j so seed m p e1 ≡ some (c, e2))
        × (unseal j so c p s e2 ≡ some (some r, e'))
        × (laws.bytes r e' ≡ laws.bytes m e)
        × Keeps j laws e e'
        × (laws.held e' ≡ laws.held e)
  unseal-seal seed m s e m_live s_live s_size small =
      let (p, e1, made, p_bytes, p_live, keeps1, held1) =
        enc_pk_from_sk-Gives j laws so sodium s e (omega arith) in
      let sk = laws.bytes s e in
      let pk = so.crypto_scalarmult_base sk in
      let pk_size : length pk ≡ enc_pk_len = sodium.base_length sk in
      let sk_whole : take 32 sk ≡ sk = take-eq_of_le 32 sk (omega arith) in
      let pk_whole : take 32 pk ≡ pk = take-eq_of_le 32 pk (omega arith) in
      let p1 : laws.bytes p e1 ≡ pk = p_bytes ∙ rw sk_whole refl in
      let m1 : laws.bytes m e1 ≡ laws.bytes m e = keeps1.same_bytes m m_live in
      let (c, e2, sealed, c_bytes, c_live, keeps2, held2) =
        seal-Gives j laws so sodium seed m p e1 (rw p1 (omega arith)) (rw m1 small) in
      let c2 : laws.bytes c e2 ≡ so.crypto_box_seal seed (laws.bytes m e) pk =
        c_bytes ∙ rw (m1, p1, pk_whole) refl in
      let p2 : laws.bytes p e2 ≡ pk = keeps2.same_bytes p p_live ∙ p1 in
      let s2 : laws.bytes s e2 ≡ sk =
        keeps2.same_bytes s (keeps1.still_Live s s_live) ∙ keeps1.same_bytes s s_live in
      let c_size : length (laws.bytes c e2) ≡ length (laws.bytes m e) + crypto_box_sealbytes =
        ap length c2 ∙ sodium.seal_length seed (laws.bytes m e) pk in
      let fits : Fits c p s e2 = record {
        pk_fits = rw p2 (omega arith);
        sk_fits = rw s2 (omega arith);
        long = omega arith;
        small = omega arith;
      } in
      let all : opened c p s e2 ≡ (pos 0, laws.bytes m e) =
        opens_again seed (laws.bytes m e) sk _ _ _ s_size c2 p2 s2 in
      let (r, e', unsealed, r_bytes, keeps3, held3) =
        unseal_opens c p s e2 fits (ap (λ x. x.0) all) in
      (
        p,
        c,
        r,
        e1,
        e2,
        e',
        made,
        sealed,
        unsealed,
        r_bytes ∙ ap (λ x. x.1) all,
        Keeps-trans j laws e e1 e' keeps1 (Keeps-trans j laws e1 e2 e' keeps2 keeps3),
        held3 ∙ held2 ∙ held1,
      )
