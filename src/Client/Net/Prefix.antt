-- ===== src/Client/Net/Prefix.antt =====
-- What client/net.c sends is what server/client_handler.c reads.
use diary.Prelude.{ℕ, ◌<◌, ◌^◌, ◌≡◌, ◌∙◌, ap, Bool-cases, inl, inr, ◌∷◌, ◌++◌}
use diary.Prelude.{append_assoc, arith, Text, codes, length-append, if◌then◌else◌}
use diary.Prelude.Int.{ℤ, pos, is_positive, IsLong}
use diary.Libc.Str.{snprintf, snprintf-fits, Lacks}
use diary.Libc.Decimal.{print_int}
use diary.Libc.Decimal.RoundTrip.{length-print_int, length-print_int_pos}
use diary.Server.Handler.{post_fields, space}
use diary.Server.Handler.Post.{post_fields-Lacks, post_fields-epoch}
use diary.Client.Net.{post_prefix, update_prefix}

-- The prefix of a POST fits its buffer.
post_prefix-fits :
    (timestamp : ℤ)
    → IsLong timestamp
    → snprintf 32 (codes "POST " ++ (print_int timestamp ++ codes " "))
      ≡ codes "POST " ++ (print_int timestamp ++ codes " ")
post_prefix-fits timestamp long =
    snprintf-fits 32 (codes "POST " ++ (print_int timestamp ++ codes " "))
      (rw (length-append (print_int timestamp)) (omega (arith, length-print_int timestamp long)))

-- The line that the client sends for a new entry is a POST in which the server reads back the
-- client's timestamp if it is positive, or else its own clock, and the sealed text, if that has
-- no space, as base64 has none, and the timestamp is in the range of `long`.
pub post_prefix-post_fields :
    (timestamp now : ℤ) (b64 : Text)
    → IsLong timestamp
    → Lacks space b64
    → (fields : Text) × (post_prefix timestamp ++ b64 ≡ codes "POST " ++ fields)
      × (post_fields fields now ≡ (if is_positive timestamp then timestamp else now, b64))
unfolding post_prefix
post_prefix-post_fields timestamp now b64 long lacks = elim (Bool-cases (is_positive timestamp)) [
  | inl e ↦
      let at = append_assoc (print_int timestamp) (codes " ") b64 in
      (
        print_int timestamp ++ (space ∷ b64),
        rw (e, post_prefix-fits timestamp long) (ap (λ (t : Text). codes "POST " ++ t) at),
        post_fields-epoch timestamp b64 now long ∙ rw (e),
      )
  | inr e ↦ (b64, rw e, post_fields-Lacks b64 now lacks ∙ rw e)
]

-- The line that the client sends for a changed entry is one that the server takes apart into the
-- identifier and the sealed text.
pub update_prefix_lem :
    (id : ℕ) (b64 : Text)
    → id < 2 ^ 31
    → update_prefix (pos id) ++ b64 ≡ codes "UPDATE " ++ (print_int (pos id) ++ (space ∷ b64))
unfolding update_prefix
update_prefix_lem id b64 small =
    let digits = print_int (pos id) in
    let bound = length-append digits (codes " ") in
    let fits =
      snprintf-fits 32 (codes "UPDATE " ++ (digits ++ codes " "))
        (rw bound (omega (arith, length-print_int_pos id small))) in
    rw fits (ap (λ (t : Text). codes "UPDATE " ++ t) (append_assoc digits (codes " ") b64))
