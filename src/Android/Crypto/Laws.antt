-- ===== src/Android/Crypto/Laws.antt =====
-- What the functions of diary_crypto.c rely on: the documented behaviour of the Java Native Interface.
use diary.Prelude.{
  Bool, ℕ, suc, ◌+◌, ◌≡◌, ◌≢◌, refl, ap, sym, ◌∙◌, List, [], ◌∷◌, Text, length, arith,
}
use diary.Prelude.Int.{pos}
use diary.Android.Crypto.{Jni, copy_back, jni_abort, write}

-- The arrays that are there, their bytes, and how many buffers are not given back yet.
pub record IsJni (j : Jni) : Type 1 where
  pub Live : j.JbyteArray → j.Env → Type 0
  pub bytes : j.JbyteArray → j.Env → Text
  pub held : j.Env → ℕ
  pub array_length : (a : j.JbyteArray) (e : j.Env) → j.get_array_length a e ≡ length (bytes a e)
  pub got : (a : j.JbyteArray) (e : j.Env) → (j.get_byte_array_elements a e).0 ≡ bytes a e
  pub get_keeps :
      (a b : j.JbyteArray) (e : j.Env) → bytes b (j.get_byte_array_elements a e).1 ≡ bytes b e
  pub get_Live :
      (a b : j.JbyteArray) (e : j.Env) → Live b e → Live b (j.get_byte_array_elements a e).1
  pub get_held :
      (a : j.JbyteArray) (e : j.Env) → held (j.get_byte_array_elements a e).1 ≡ suc (held e)
  pub new_length :
      (n : ℕ) (e : j.Env)
      → length (bytes (j.new_byte_array (pos n) e).0 (j.new_byte_array (pos n) e).1) ≡ n
  pub new_fresh :
      (n : ℕ) (b : j.JbyteArray) (e : j.Env) → Live b e → (j.new_byte_array (pos n) e).0 ≢ b
  pub new_keeps :
      (n : ℕ) (b : j.JbyteArray) (e : j.Env)
      → Live b e
      → bytes b (j.new_byte_array (pos n) e).1 ≡ bytes b e
  pub new_Live :
      (n : ℕ) (b : j.JbyteArray) (e : j.Env) → Live b e → Live b (j.new_byte_array (pos n) e).1
  pub new_is_Live :
      (n : ℕ) (e : j.Env) → Live (j.new_byte_array (pos n) e).0 (j.new_byte_array (pos n) e).1
  pub new_held : (n : ℕ) (e : j.Env) → held (j.new_byte_array (pos n) e).1 ≡ held e
  pub aborted :
      (a b : j.JbyteArray) (t : Text) (e : j.Env)
      → bytes b (j.release_byte_array_elements a t jni_abort e) ≡ bytes b e
  pub copied :
      (a : j.JbyteArray) (t : Text) (e : j.Env)
      → Live a e
      → length t ≡ length (bytes a e)
      → bytes a (j.release_byte_array_elements a t copy_back e) ≡ t
  pub copied_keeps :
      (a b : j.JbyteArray) (t : Text) (e : j.Env)
      → a ≢ b
      → bytes b (j.release_byte_array_elements a t copy_back e) ≡ bytes b e
  pub release_Live :
      (a b : j.JbyteArray) (t : Text) (mode : Bool) (e : j.Env)
      → Live b e
      → Live b (j.release_byte_array_elements a t mode e)
  pub release_held :
      (a : j.JbyteArray) (t : Text) (mode : Bool) (e : j.Env) (n : ℕ)
      → held e ≡ suc n
      → held (j.release_byte_array_elements a t mode e) ≡ n

write_all : (t buf : Text) → length t ≡ length buf → write t buf ≡ t
write_all [] [] h = refl
write_all [] (y ∷ buf) h = absurd (omega arith)
write_all (x ∷ t) [] h = absurd (omega arith)
write_all (x ∷ t) (y ∷ buf) h = ap (λ (u : Text). x ∷ u) (write_all t buf (omega arith))

module _ (j : Jni) (laws : IsJni j) where
  -- What a call leaves of the state before: the arrays and their bytes.
  pub record Keeps (e e' : j.Env) : Type 0 where
    pub same_bytes : (b : j.JbyteArray) → laws.Live b e → laws.bytes b e' ≡ laws.bytes b e
    pub still_Live : (b : j.JbyteArray) → laws.Live b e → laws.Live b e'

  -- Buffers given back unread.
  abbrev pub aborts : List (j.JbyteArray × Text) → j.Env → j.Env
  aborts [] e = e
  aborts ((a, t) ∷ ins) e = aborts ins (j.release_byte_array_elements a t jni_abort e)

  aborts_bytes :
      (ins : List (j.JbyteArray × Text)) (b : j.JbyteArray) (e : j.Env)
      → laws.bytes b (aborts ins e) ≡ laws.bytes b e
  aborts_bytes [] b e = refl
  aborts_bytes ((a, t) ∷ ins) b e =
      aborts_bytes ins b (j.release_byte_array_elements a t jni_abort e) ∙ laws.aborted a b t e

  aborts_Live :
      (ins : List (j.JbyteArray × Text)) (b : j.JbyteArray) (e : j.Env)
      → laws.Live b e
      → laws.Live b (aborts ins e)
  aborts_Live [] b e h = h
  aborts_Live ((a, t) ∷ ins) b e h =
      aborts_Live ins b (j.release_byte_array_elements a t jni_abort e)
        (laws.release_Live a b t jni_abort e h)

  pub aborts_held :
      (ins : List (j.JbyteArray × Text)) (h : ℕ) (e : j.Env)
      → laws.held e ≡ length ins + h
      → laws.held (aborts ins e) ≡ h
  aborts_held [] h e same = omega arith
  aborts_held ((a, t) ∷ ins) h e same =
      aborts_held ins h (j.release_byte_array_elements a t jni_abort e)
        (laws.release_held a t jni_abort e (length ins + h) (omega arith))

  pub aborts-Keeps : (ins : List (j.JbyteArray × Text)) (e : j.Env) → Keeps e (aborts ins e)
  aborts-Keeps ins e = record {
    same_bytes = λ b _. aborts_bytes ins b e;
    still_Live = λ b h. aborts_Live ins b e h;
  }

  pub Keeps-trans : (e e1 e2 : j.Env) → Keeps e e1 → Keeps e1 e2 → Keeps e e2
  Keeps-trans e e1 e2 k l = record {
    same_bytes = λ b h. l.same_bytes b (k.still_Live b h) ∙ k.same_bytes b h;
    still_Live = λ b h. l.still_Live b (k.still_Live b h);
  }

  pub get-Keeps : (a : j.JbyteArray) (e : j.Env) → Keeps e (j.get_byte_array_elements a e).1
  get-Keeps a e = record {
    same_bytes = λ b _. laws.get_keeps a b e;
    still_Live = λ b h. laws.get_Live a b e h;
  }

  -- The state behind a new array of `n` bytes that is filled with `t`, with the buffers of the inputs
  -- given back before its own.
  abbrev pub fill : ℕ → Text → List (j.JbyteArray × Text) → j.Env → j.Env
  fill n t ins e =
      let (r, e1) = j.new_byte_array (pos n) e in
      let (buf, e2) = j.get_byte_array_elements r e1 in
      j.release_byte_array_elements r (write t buf) copy_back (aborts ins e2)

  -- The new array has the bytes, the others keep theirs, and no buffer of the call is held.
  pub fill_lem :
      (n : ℕ) (t : Text) (ins : List (j.JbyteArray × Text)) (e : j.Env) (h : ℕ)
      → length t ≡ n
      → laws.held e ≡ length ins + h
      → let r = (j.new_byte_array (pos n) e).0 in
        (laws.bytes r (fill n t ins e) ≡ t)
        × laws.Live r (fill n t ins e)
        × Keeps e (fill n t ins e)
        × (laws.held (fill n t ins e) ≡ h)
  fill_lem n t ins e h size holds =
      let r = (j.new_byte_array (pos n) e).0 in
      let e1 = (j.new_byte_array (pos n) e).1 in
      let buf = (j.get_byte_array_elements r e1).0 in
      let e2 = (j.get_byte_array_elements r e1).1 in
      let e3 = aborts ins e2 in
      let size_r : length (laws.bytes r e1) ≡ n = laws.new_length n e in
      let size_buf : length buf ≡ n = ap length (laws.got r e1) ∙ size_r in
      let whole : write t buf ≡ t = write_all t buf (size ∙ sym size_buf) in
      let kept : laws.bytes r e3 ≡ laws.bytes r e1 =
        aborts_bytes ins r e2 ∙ laws.get_keeps r r e1 in
      let live : laws.Live r e3 =
        aborts_Live ins r e2 (laws.get_Live r r e1 (laws.new_is_Live n e)) in
      let fits : length (write t buf) ≡ length (laws.bytes r e3) =
        ap length whole ∙ size ∙ sym (ap length kept ∙ size_r) in
      let held2 : laws.held e2 ≡ length ins + suc h =
        omega (arith, laws.get_held r e1, laws.new_held n e, holds) in
      (
        laws.copied r (write t buf) e3 live fits ∙ whole,
        laws.release_Live r r (write t buf) copy_back e3 live,
        record {
          same_bytes = λ b there.
              laws.copied_keeps r b (write t buf) e3 (laws.new_fresh n b e there)
              ∙ aborts_bytes ins b e2
              ∙ laws.get_keeps r b e1
              ∙ laws.new_keeps n b e there;
          still_Live = λ b there.
              laws.release_Live r b (write t buf) copy_back e3
                (aborts_Live ins b e2 (laws.get_Live r b e1 (laws.new_Live n b e there)));
        },
        laws.release_held r (write t buf) copy_back e3 h (aborts_held ins (suc h) e2 held2),
      )
