-- ===== src/Core/Answer.antt =====
-- The answers of the HTTP servers (Response of pkg/protocol/core/types.go, protocolAll of
-- pkg/protocol/container/container.go) over what net/http documents of a ResponseWriter.
use zingthings.Base.{
  ℕ, ◌≡◌, refl, Option, none, some, [], ◌∷◌, ◌++◌, if◌then◌else◌, is_some, ◌⊎◌, inl, inr,
}
use zingthings.Base.Text.{Text, codes}
use zingthings.Base.Int.{ℤ, pos}

-- A ResponseWriter: the status and the content type that were sent, if they were, the content type
-- of its Header, and the body.
pub record Writer : Type 0 where
  pub status : Option ℕ
  pub sent_type : Option Text
  pub content_type : Option Text
  pub body : Text

-- WriteHeader sends the header as it is then. Only the first call has an effect.
unfoldable pub write_header : ℕ → Writer → Writer
write_header code w =
    if is_some w.status then w else record w { status = some code; sent_type = w.content_type }

unfoldable pub set_content_type : Text → Writer → Writer
set_content_type t w = record w { content_type = some t }

-- Write sends the header with status 200 if none was sent.
unfoldable pub write : Text → Writer → Writer
unfolding write_header
write t w = let sent = write_header 200 w in record sent { body = sent.body ++ t }

abbrev pub json_type : Text
json_type = codes "application/json; charset=utf-8"

pub record Answer {ℓ} (D : Type ℓ) : Type ℓ where
  pub content : Option D
  pub code : ℤ
  pub message : Text

abbrev pub to_byte_fail : Text
to_byte_fail = codes "{\"code\":0,\"message\":\"to byte fail\"}"

-- 成功, in UTF-8.
abbrev pub success : Text
success = 230 ∷ 136 ∷ 144 ∷ 229 ∷ 138 ∷ 159 ∷ []

-- The end of WriteStatus, by the result of ToBytes.
write_bytes : Option Text → Writer → Writer
unfolding write_header write
write_bytes none w = write to_byte_fail (write_header 500 w)
write_bytes (some t) w = write t w

-- The end of protocolAll, by the result of json.Marshal.
write_all : Text ⊎ Text → Writer → Writer
unfolding write_header write
write_all (inl error) w = write error (write_header 400 w)
write_all (inr t) w = write t w

module _ {ℓ} {D : Type ℓ} where
  unfoldable pub ok_answer : D → Answer D
  ok_answer d = record { content = some d; code = pos 1; message = codes "ok" }

  unfoldable pub fail_with_message : Text → Answer D
  fail_with_message m = record { content = none; code = pos 0; message = m }

  unfoldable pub fail : Answer D
  unfolding fail_with_message
  fail = fail_with_message (codes "fail")

  -- `message` is err.Error().
  unfoldable pub fail_with_error : Text → Answer D
  unfolding fail_with_message
  fail_with_error message = fail_with_message message

  -- `to_bytes` is json.Marshal; none is its error.
  unfoldable pub write_status : (Answer D → Option Text) → ℕ → Answer D → Writer → Writer
  unfolding write_header set_content_type write_bytes
  write_status to_bytes code r w =
      write_bytes (to_bytes r) (set_content_type json_type (write_header code w))

  unfoldable pub write_error : (Answer D → Option Text) → Answer D → Writer → Writer
  unfolding write_status
  write_error to_bytes = write_status to_bytes 500

  unfoldable pub write_ok : (Answer D → Option Text) → Answer D → Writer → Writer
  unfolding write_status
  write_ok to_bytes = write_status to_bytes 200

  -- protocolAll; `marshal` is json.Marshal, with the text of its error.
  unfoldable pub protocol_all : (Answer D → Text ⊎ Text) → D → Writer → Writer
  unfolding write_header set_content_type write_all
  protocol_all marshal all w =
      write_all (marshal (record { content = some all; code = pos 1; message = success }))
        (set_content_type json_type (write_header 200 w))

abbrev pub body_of : Option Text → Text
body_of none = to_byte_fail
body_of (some t) = t

abbrev pub all_body_of : Text ⊎ Text → Text
all_body_of (inl error) = error
all_body_of (inr t) = t

-- What a writer has sent: a status, a body, and no content type.
pub record IsSent (w : Writer) (status : ℕ) (body : Text) : Type 0 where
  pub has_status : w.status ≡ some status
  pub untyped : w.sent_type ≡ none
  pub has_body : w.body ≡ body

abbrev pub new_writer : Writer
new_writer = record { status = none; sent_type = none; content_type = none; body = [] }

write_bytes-IsSent :
    (t : Option Text) (code : ℕ)
    → IsSent
        (write_bytes t (set_content_type json_type (write_header code new_writer)))
        code
        (body_of t)
unfolding write_bytes write write_header set_content_type
write_bytes-IsSent none code = record { has_status = refl; untyped = refl; has_body = refl }
write_bytes-IsSent (some t) code = record { has_status = refl; untyped = refl; has_body = refl }

write_all-IsSent :
    (t : Text ⊎ Text)
    → IsSent
        (write_all t (set_content_type json_type (write_header 200 new_writer)))
        200
        (all_body_of t)
unfolding write_all write write_header set_content_type
write_all-IsSent (inl error) = record { has_status = refl; untyped = refl; has_body = refl }
write_all-IsSent (inr t) = record { has_status = refl; untyped = refl; has_body = refl }

-- WriteStatus sends the given status, also if the answer cannot be written as JSON, and protocolAll
-- sends status 200, also if its answer cannot be. Neither ever sends the content type.
pub answers-IsSent {ℓ} :
    {D : Type ℓ} (to_bytes : Answer D → Option Text) (marshal : Answer D → Text ⊎ Text) (code : ℕ)
    (r : Answer D) (all : D)
    → IsSent (write_status to_bytes code r new_writer) code (body_of (to_bytes r))
      × IsSent
          (protocol_all marshal all new_writer)
          200
          (all_body_of (marshal (record { content = some all; code = pos 1; message = success })))
unfolding write_status protocol_all
answers-IsSent to_bytes marshal code r all =
    (write_bytes-IsSent (to_bytes r) code, write_all-IsSent _)
