-- ===== src/Recorder/Capture.antt =====
-- recordingRequestBody and the body of recordingResponseWriter: bytes kept up to a cap.
pub mod Laws
use zolem.Base.{
  ℕ, ◌+◌, ◌-◌, ℤ, Option, none, some, pos_part, Bool, true, false, String, List, [], ◌∷◌, ◌++◌,
  if◌then◌else◌, leb, eqb, length, take,
}
use zolem.Recorder.{RecordedRequest, RecordedResponse}

-- The captured part of a request's body; `total` counts all bytes read.
pub record RequestCapture : Type 0 where
  pub cap : ℤ
  pub buf : List ℕ
  pub total : ℕ

-- The fields of the response writer that the body changes.
pub record ResponseCapture : Type 0 where
  pub body_cap_bytes : ℤ
  pub body : List ℕ
  pub body_truncated : ℕ

abbrev pub new_recording_request_body : ℤ → RequestCapture
new_recording_request_body cap = record { cap = cap; buf = []; total = 0 }

abbrev pub new_recording_body : ℤ → ResponseCapture
new_recording_body cap = record { body_cap_bytes = cap; body = []; body_truncated = 0 }

-- What both append to the bytes kept. Their `room` may be negative, where `-` stops at 0; either
-- is `room <= 0`.
abbrev pub kept : ℤ → List ℕ → List ℕ → List ℕ
kept cap buf p =
    let room = pos_part cap - length buf in
    if leb (pos_part cap) 0
    then buf ++ p
    else if leb room 0
    then buf
    else if leb (length p) room
    then buf ++ p
    else buf ++ take room p

unfoldable pub capture : RequestCapture → List ℕ → RequestCapture
capture b p = record b { total = b.total + length p; buf = kept b.cap b.buf p }

-- The bytes kept and how many were dropped, at least 0.
unfoldable pub snapshot : RequestCapture → List ℕ × ℕ
snapshot b = (b.buf, b.total - length b.buf)

-- What the response's capture adds to `bodyTruncated` in the same cases.
abbrev pub dropped : ℤ → List ℕ → List ℕ → ℕ
dropped cap body p =
    let room = pos_part cap - length body in
    if leb (pos_part cap) 0
    then 0
    else if leb room 0
    then length p
    else if leb (length p) room
    then 0
    else length p - room

unfoldable pub capture_body : ResponseCapture → List ℕ → ResponseCapture
capture_body writer p = record writer {
  body = kept writer.body_cap_bytes writer.body p;
  body_truncated = writer.body_truncated + dropped writer.body_cap_bytes writer.body p;
}

-- unicode/utf8 and encoding/base64: the text of valid UTF-8, and the encoding of any bytes.
pub record Encoding : Type 0 where
  pub text : List ℕ → Option String
  pub encode_to_string : List ℕ → String

abbrev pub set_request_body : Encoding → RecordedRequest → List ℕ → ℕ → RecordedRequest
set_request_body enc r [] truncated = record r { body_truncated_bytes = truncated }
set_request_body enc r (b ∷ raw) truncated = elim (enc.text (b ∷ raw)) [
  | some s ↦ record r { body_truncated_bytes = truncated; body = s }
  | none ↦ record r {
    body_truncated_bytes = truncated;
    body_base64 = enc.encode_to_string (b ∷ raw);
  }
]

abbrev pub set_response_body : Encoding → RecordedResponse → List ℕ → ℕ → RecordedResponse
set_response_body enc r [] truncated = record r { body_truncated_bytes = truncated }
set_response_body enc r (b ∷ raw) truncated = elim (enc.text (b ∷ raw)) [
  | some s ↦ record r { body_truncated_bytes = truncated; body = s }
  | none ↦ record r {
    body_truncated_bytes = truncated;
    body_base64 = enc.encode_to_string (b ∷ raw);
  }
]
