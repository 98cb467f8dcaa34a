-- ===== src/Android/Crypto.antt =====
-- android-client/app/src/main/cpp/diary_crypto.c: the functions that the application calls through
-- the Java Native Interface. The interface and libsodium are parameters. A function is `none` where
-- it would read bytes outside of an array. The interface has memory for the arrays.
pub mod Laws
pub mod Keys
pub mod Seal
pub mod Unseal
use diary.Prelude.{
  ℕ, ◌+◌, ◌-◌, Bool, true, false, not, ◌||◌, Option, none, some, Text, ◌++◌, length, take, drop,
  ltb, if◌then◌else◌,
}
use diary.Prelude.Int.{ℤ, pos, eq_ℤ, to_int}

-- The functions of `JNIEnv` that are called, on the state of the virtual machine.
pub record Jni : Type 1 where
  pub Env : Type 0
  pub JbyteArray : Type 0
  pub get_array_length : JbyteArray → Env → ℕ
  pub new_byte_array : ℤ → Env → JbyteArray × Env
  -- The bytes in a buffer of their own.
  pub get_byte_array_elements : JbyteArray → Env → Text × Env
  -- The buffer is given back; its bytes are copied to the array, or not.
  pub release_byte_array_elements : JbyteArray → Text → Bool → Env → Env

-- The mode 0, which copies the bytes back, and JNI_ABORT, which does not.
abbrev pub copy_back : Bool
copy_back = true

abbrev pub jni_abort : Bool
jni_abort = false

-- sodium.h. The first argument of crypto_box_seal stands for the random bytes that it draws;
-- crypto_box_seal_open returns its code and what is in the buffer then, and that of its length.
pub record Libsodium : Type 0 where
  pub sodium_init : ℤ
  pub crypto_scalarmult_base : Text → Text
  pub crypto_sign_detached : Text → Text → Text
  pub crypto_box_seal : Text → Text → Text → Text
  pub crypto_box_seal_open : Text → Text → Text → ℤ × Text

abbrev pub auth_pk_len : ℕ
auth_pk_len = 32

abbrev pub auth_sk_len : ℕ
auth_sk_len = 64

abbrev pub auth_sig_len : ℕ
auth_sig_len = 64

abbrev pub enc_pk_len : ℕ
enc_pk_len = 32

abbrev pub enc_sk_len : ℕ
enc_sk_len = 32

abbrev pub crypto_box_sealbytes : ℕ
crypto_box_sealbytes = 48

-- The buffer with its first bytes written.
abbrev pub write : Text → Text → Text
write bytes buf = bytes ++ drop (length bytes) buf

module _ (j : Jni) (so : Libsodium) where
  unfoldable pub sodium_init : ℤ
  sodium_init = so.sodium_init

  unfoldable pub auth_pk_from_sk : j.JbyteArray → j.Env → Option (j.JbyteArray × j.Env)
  auth_pk_from_sk auth_sk_j env =
      let (sk, e1) = j.get_byte_array_elements auth_sk_j env in
      let (pk_j, e2) = j.new_byte_array (pos auth_pk_len) e1 in
      let (pk, e3) = j.get_byte_array_elements pk_j e2 in
      let written = write (take auth_pk_len (drop 32 sk)) pk in
      let e4 = j.release_byte_array_elements auth_sk_j sk jni_abort e3 in
      let e5 = j.release_byte_array_elements pk_j written copy_back e4 in
      if ltb (length sk) auth_sk_len then none else some (pk_j, e5)

  unfoldable pub enc_pk_from_sk : j.JbyteArray → j.Env → Option (j.JbyteArray × j.Env)
  enc_pk_from_sk enc_sk_j env =
      let (sk, e1) = j.get_byte_array_elements enc_sk_j env in
      let (pk_j, e2) = j.new_byte_array (pos enc_pk_len) e1 in
      let (pk, e3) = j.get_byte_array_elements pk_j e2 in
      let written = write (so.crypto_scalarmult_base (take enc_sk_len sk)) pk in
      let e4 = j.release_byte_array_elements enc_sk_j sk jni_abort e3 in
      let e5 = j.release_byte_array_elements pk_j written copy_back e4 in
      if ltb (length sk) enc_sk_len then none else some (pk_j, e5)

  unfoldable pub sign_challenge :
      j.JbyteArray → j.JbyteArray → j.Env → Option (j.JbyteArray × j.Env)
  sign_challenge challenge_j auth_sk_j env =
      let (challenge, e1) = j.get_byte_array_elements challenge_j env in
      let clen = j.get_array_length challenge_j e1 in
      let (sk, e2) = j.get_byte_array_elements auth_sk_j e1 in
      let (sig_j, e3) = j.new_byte_array (pos auth_sig_len) e2 in
      let (sig, e4) = j.get_byte_array_elements sig_j e3 in
      let written =
        write (so.crypto_sign_detached (take clen challenge) (take auth_sk_len sk)) sig in
      let e5 = j.release_byte_array_elements challenge_j challenge jni_abort e4 in
      let e6 = j.release_byte_array_elements auth_sk_j sk jni_abort e5 in
      let e7 = j.release_byte_array_elements sig_j written copy_back e6 in
      if ltb (length sk) auth_sk_len then none else some (sig_j, e7)

  -- The size of the new array is cast to `jsize`, an `int`.
  unfoldable pub seal : Text → j.JbyteArray → j.JbyteArray → j.Env → Option (j.JbyteArray × j.Env)
  seal seed msg_j enc_pk_j env =
      let (msg, e1) = j.get_byte_array_elements msg_j env in
      let msglen = j.get_array_length msg_j e1 in
      let (pk, e2) = j.get_byte_array_elements enc_pk_j e1 in
      let cipher_len = msglen + crypto_box_sealbytes in
      let (cipher_j, e3) = j.new_byte_array (to_int (pos cipher_len)) e2 in
      let (cipher, e4) = j.get_byte_array_elements cipher_j e3 in
      let written = write (so.crypto_box_seal seed (take msglen msg) (take enc_pk_len pk)) cipher in
      let e5 = j.release_byte_array_elements msg_j msg jni_abort e4 in
      let e6 = j.release_byte_array_elements enc_pk_j pk jni_abort e5 in
      let e7 = j.release_byte_array_elements cipher_j written copy_back e6 in
      if ltb (length pk) enc_pk_len then none else some (cipher_j, e7)

  -- The plaintext, or NULL.
  unfoldable pub unseal :
      j.JbyteArray → j.JbyteArray → j.JbyteArray → j.Env → Option (Option j.JbyteArray × j.Env)
  unseal cipher_j enc_pk_j enc_sk_j env =
      let (cipher, e1) = j.get_byte_array_elements cipher_j env in
      let cipherlen = j.get_array_length cipher_j e1 in
      let (pk, e2) = j.get_byte_array_elements enc_pk_j e1 in
      let (sk, e3) = j.get_byte_array_elements enc_sk_j e2 in
      let s1 = j.release_byte_array_elements cipher_j cipher jni_abort e3 in
      let s2 = j.release_byte_array_elements enc_pk_j pk jni_abort s1 in
      let s3 = j.release_byte_array_elements enc_sk_j sk jni_abort s2 in
      let plain_len = cipherlen - crypto_box_sealbytes in
      let (plain_j, e4) = j.new_byte_array (to_int (pos plain_len)) e3 in
      let (plain, e5) = j.get_byte_array_elements plain_j e4 in
      let (rc, opened) =
        so.crypto_box_seal_open (take cipherlen cipher) (take enc_pk_len pk) (take enc_sk_len sk) in
      let written = write opened plain in
      let e6 = j.release_byte_array_elements cipher_j cipher jni_abort e5 in
      let e7 = j.release_byte_array_elements enc_pk_j pk jni_abort e6 in
      let e8 = j.release_byte_array_elements enc_sk_j sk jni_abort e7 in
      let e9 = j.release_byte_array_elements plain_j written copy_back e8 in
      if ltb cipherlen crypto_box_sealbytes
      then some (none, s3)
      else if ltb (length pk) enc_pk_len || ltb (length sk) enc_sk_len
      then none
      else if not (eq_ℤ rc (pos 0))
      then some (none, e9)
      else some (some plain_j, e9)
