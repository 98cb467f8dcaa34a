-- ===== src/Client/Ui/Editor/Invariant.antt =====
-- Every round of the editor of client/ui.c keeps it well-formed.
use diary.Prelude.{ℕ, ◌+◌, ◌*◌, ◌<◌, ◌≡◌, refl, ◌==◌, ◌||◌, ◌&&◌, true, List, [], ◌∷◌}
use diary.Prelude.{arith, length, leb, if_cases}
use diary.Prelude.Int.{ℤ}
use diary.Client.Service.{Service}
use diary.Client.Ui.Utf8.{u8_is_cont}
use diary.Client.Ui.Layout.{newline, get_vpos}
use diary.Client.Ui.Editor.{
  Editor, Input, Key, timeout, byte, f2, up, backspace, delete, enter, Session, insert_byte,
  navigate, is_print, is_zero, with_room, save, escape, on_byte, on_key, refresh, editor_step,
  screen_editor,
}
use diary.Client.Ui.Editor.Valid.{
  IsValid, insert_byte-IsValid, erase_back-IsValid, erase_forward-IsValid, navigate-IsValid,
  transfer,
}

-- A byte that continues a character is typed only behind another byte.
abbrev pub Typed : Key → Editor → Type 0
Typed (byte b) e = u8_is_cont b ≡ true → 0 < e.cursor
Typed _ e = Unit {0}

module _ (sv : Service) (g_entry_at : ℤ) where
  abbrev Ok : Session sv → Type 0
  Ok s = IsValid s.editor

  insert-Ok :
      (i : Input) (b : ℕ) (s : Session sv)
      → Ok s
      → (u8_is_cont b ≡ true → 0 < s.editor.cursor)
      → Ok (with_room sv i (insert_byte b) s)
  unfolding with_room
  insert-Ok i b s v lead =
      let e = s.editor in
      if_cases Ok (leb e.buf_sz (length e.buf + 1)) _ _
        (λ full.
          if_cases Ok i.realloc_ok _ _
            (λ _.
              insert_byte-IsValid b (record e { buf_sz = e.buf_sz * 2 })
                (record {
                  within = v.within;
                  room = omega (arith, v.room);
                  starts = v.starts;
                  between = v.between;
                })
                (omega (arith, v.room)) lead)
            (λ _. v))
        (λ fits. insert_byte-IsValid b e v (ground arith) lead)

  save-Ok : (i : Input) (s : Session sv) → Ok s → Ok (save sv g_entry_at i s)
  unfolding save
  save-Ok i s v =
      transfer s.editor (save sv g_entry_at i s).editor (ground arith) (ground arith) (ground arith)
        v

  newline-Ok : (i : Input) (s : Session sv) → Ok s → Ok (with_room sv i (insert_byte newline) s)
  newline-Ok i s v = insert-Ok i newline s v (λ h. unfold u8_is_cont in cc)

  moved :
      (i : Input) (k : Key) (s : Session sv)
      → Ok s
      → IsValid (navigate k i.cols (get_vpos s.editor.buf s.editor.cursor i.cols) s.editor)
  moved i k s v = navigate-IsValid k i.cols _ _ s.editor v

  escape-Ok : (s : Session sv) → Ok s → Ok (escape sv s)
  unfolding escape
  escape-Ok s v =
      transfer s.editor (escape sv s).editor (ground arith) (ground arith) (ground arith) v

  on_byte-Ok :
      (i : Input) (b : ℕ) (s : Session sv)
      → Ok s
      → (u8_is_cont b ≡ true → 0 < s.editor.cursor)
      → Ok (on_byte sv g_entry_at i b s)
  unfolding on_byte
  on_byte-Ok i b s v lead =
      if_cases Ok (b == 19 || b == 23) _ _ (λ _. save-Ok i s v)
        λ _.
          if_cases Ok (b == 27) _ _ (λ _. escape-Ok s v)
            λ _.
              if_cases Ok (b == 127 || b == 8) _ _ (λ _. erase_back-IsValid s.editor v)
                λ _.
                  if_cases Ok (b == b'\n' || b == b'\r') _ _ (λ _. newline-Ok i s v)
                    λ _.
                      if_cases Ok (is_print b || (leb 0x80 b && leb b 0xFF)) _ _
                        (λ _. insert-Ok i b s v lead) (λ _. v)

  on_key-Ok :
      (i : Input) (k : Key) (s : Session sv)
      → Ok s
      → Typed k s.editor
      → Ok (on_key sv g_entry_at i k s)
  unfolding on_key
  on_key-Ok i timeout s v typed =
      if_cases Ok (is_zero s.editor.dirty) s _ (λ _. v) (λ _. save-Ok i s v)
  on_key-Ok i f2 s v typed = save-Ok i s v
  on_key-Ok i (byte b) s v typed = on_byte-Ok i b s v typed
  on_key-Ok i backspace s v typed = erase_back-IsValid s.editor v
  on_key-Ok i delete s v typed = erase_forward-IsValid s.editor v
  on_key-Ok i enter s v typed = newline-Ok i s v
  on_key-Ok i up s v typed = moved i up s v
  on_key-Ok i k s v typed = moved i k s v

  refresh-Ok : (i : Input) (s : Session sv) → Ok s → Ok (refresh sv i s)
  unfolding refresh
  refresh-Ok i s v = transfer s.editor (refresh sv i s).editor refl refl refl v

  Typed-after :
      (i : Input) (k : Key) (s : Session sv) → Typed k s.editor → Typed k (refresh sv i s).editor
  unfolding refresh
  Typed-after i (byte b) s typed = typed
  Typed-after i timeout s typed = tt
  Typed-after i _ s typed = tt

  -- A round of the editor keeps it well-formed, whichever key is read and whatever the network and
  -- the system answer, if a continuation byte is typed only behind another byte.
  pub editor_step-IsValid :
      (i : Input) (s : Session sv)
      → IsValid s.editor
      → Typed i.key s.editor
      → IsValid (editor_step sv g_entry_at i s).editor
  unfolding editor_step
  editor_step-IsValid i s v typed =
      on_key-Ok i i.key (refresh sv i s) (refresh-Ok i s v) (Typed-after i i.key s typed)

  -- The keys of a whole run, each typed as above.
  abbrev pub AllTyped : List Input → Session sv → Type 0
  AllTyped [] s = Unit {0}
  AllTyped (i ∷ is) s = Typed i.key s.editor × AllTyped is (editor_step sv g_entry_at i s)

  -- The editor is well-formed at the end of every run from a well-formed start, whichever keys
  -- are read and whatever the network and the system answer, if a continuation byte is typed
  -- only behind another byte.
  pub screen_editor-IsValid :
      (is : List Input) (s : Session sv)
      → IsValid s.editor
      → AllTyped is s
      → IsValid (screen_editor sv g_entry_at is s).editor
  unfolding screen_editor
  screen_editor-IsValid [] s v typed = v
  screen_editor-IsValid (i ∷ is) s v typed =
      if_cases Ok s.running _ s
        (λ _.
          screen_editor-IsValid is (editor_step sv g_entry_at i s)
            (editor_step-IsValid i s v typed.0) typed.1)
        (λ _. v)
