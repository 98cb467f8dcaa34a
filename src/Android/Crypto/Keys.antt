-- ===== src/Android/Crypto/Keys.antt =====
-- The keys and the signature of diary_crypto.c.
use diary.Prelude.{
  ℕ, ◌+◌, ◌-◌, ◌≤◌, ◌≡◌, List, [], ◌∷◌, Text, Option, some, length, length-take, length-drop, take,
  drop, arith,
}
use mathlib.Core.Path.{subst}
use diary.Prelude.Int.{pos}
use diary.Android.Crypto.{
  Jni, Libsodium, auth_pk_len, auth_sk_len, auth_sig_len, enc_pk_len, enc_sk_len,
  crypto_box_sealbytes, auth_pk_from_sk, enc_pk_from_sk,
}
use diary.Android.Crypto.Laws.{IsJni, Keeps, Keeps-trans, get-Keeps, fill, fill_lem}

-- The documented lengths of what libsodium gives, and that what is sealed for the public key of a
-- secret key is opened with the pair.
pub record IsLibsodium (so : Libsodium) : Type 0 where
  pub base_length : (sk : Text) → length (so.crypto_scalarmult_base sk) ≡ enc_pk_len
  pub sign_length : (m sk : Text) → length (so.crypto_sign_detached m sk) ≡ auth_sig_len
  pub seal_length :
      (seed m pk : Text) → length (so.crypto_box_seal seed m pk) ≡ length m + crypto_box_sealbytes
  pub open_length :
      (c pk sk : Text)
      → length (so.crypto_box_seal_open c pk sk).1 ≡ length c - crypto_box_sealbytes
  pub opens :
      (seed m sk : Text)
      → length sk ≡ enc_sk_len
      → let pk = so.crypto_scalarmult_base sk in
        so.crypto_box_seal_open (so.crypto_box_seal seed m pk) pk sk ≡ (pos 0, m)

module _ (j : Jni) (laws : IsJni j) (so : Libsodium) (sodium : IsLibsodium so) where
  -- The call gives a new array with these bytes; the arrays that were there keep theirs, and no buffer
  -- of the call is held.
  abbrev pub Gives : Option (j.JbyteArray × j.Env) → j.Env → Text → Type 0
  Gives o e t =
      (r : j.JbyteArray) × (e' : j.Env) × (o ≡ some (r, e'))
      × (laws.bytes r e' ≡ t)
      × laws.Live r e'
      × Keeps j laws e e'
      × (laws.held e' ≡ laws.held e)

  pub fill-Gives :
      (o : Option (j.JbyteArray × j.Env)) (n : ℕ) (t : Text) (ins : List (j.JbyteArray × Text))
      (e e1 : j.Env)
      → o ≡ some ((j.new_byte_array (pos n) e1).0, fill j laws n t ins e1)
      → length t ≡ n
      → Keeps j laws e e1
      → laws.held e1 ≡ length ins + laws.held e
      → Gives o e t
  fill-Gives o n t ins e e1 run size keeps holds =
      let (bytes, live, after, rest) = fill_lem j laws n t ins e1 (laws.held e) size holds in
      (_, _, run, bytes, live, Keeps-trans j laws e e1 _ keeps after, rest)

  -- From a secret key of 64 bytes or more the public key is its bytes 32 to 63, in a new array; the
  -- secret key and all other arrays stay as they are, and no buffer is held.
  pub auth_pk_from_sk-Gives :
      (a : j.JbyteArray) (e : j.Env)
      → auth_sk_len ≤ length (laws.bytes a e)
      → Gives (auth_pk_from_sk j so a e) e (take 32 (drop 32 (laws.bytes a e)))
  unfolding auth_pk_from_sk
  auth_pk_from_sk-Gives a e long =
      let sk = (j.get_byte_array_elements a e).0 in
      let same : sk ≡ laws.bytes a e = laws.got a e in
      let long1 : auth_sk_len ≤ length sk = rw same long in
      let t = take 32 (drop 32 sk) in
      let size : length t ≡ auth_pk_len =
        omega (arith, length-take 32 (drop 32 sk), length-drop 32 sk) in
      let call =
        fill-Gives (auth_pk_from_sk j so a e) auth_pk_len t ((a, sk) ∷ []) e _ (ground arith) size
          (get-Keeps j laws a e) (omega (arith, laws.get_held a e)) in
      subst (λ (k : Text). Gives (auth_pk_from_sk j so a e) e (take 32 (drop 32 k))) same call

  pub enc_pk_from_sk-Gives :
      (a : j.JbyteArray) (e : j.Env)
      → enc_sk_len ≤ length (laws.bytes a e)
      → Gives (enc_pk_from_sk j so a e) e (so.crypto_scalarmult_base (take 32 (laws.bytes a e)))
  unfolding enc_pk_from_sk
  enc_pk_from_sk-Gives a e long =
      let sk = (j.get_byte_array_elements a e).0 in
      let same : sk ≡ laws.bytes a e = laws.got a e in
      let long1 : enc_sk_len ≤ length sk = rw same long in
      let call =
        fill-Gives (enc_pk_from_sk j so a e) enc_pk_len _ ((a, sk) ∷ []) e _ (ground arith)
          (sodium.base_length (take 32 sk)) (get-Keeps j laws a e)
          (omega (arith, laws.get_held a e)) in
      subst
        (λ (k : Text). Gives (enc_pk_from_sk j so a e) e (so.crypto_scalarmult_base (take 32 k)))
        same call
