-- ===== src/Recorder.antt =====
-- cmd/zolem/recording.go: the captured calls of a listener.
pub mod Log
pub mod Capture
pub mod Stream
pub mod Redact
pub mod Tests
use zolem.Base.{ℕ, ℤ, pos, String, List, [], Option, none}

-- http.Header, the values as bytes.
abbrev pub Header : Type 0
Header = List (String × List (List ℕ))

pub record RecordedWsCall : Type 0 where
  pub call_id : ℕ
  pub method : String
  pub path : String
  pub status : ℕ
  pub frames_sent : ℕ
  pub frames_received : ℕ

pub record RecordedRequest : Type 0 where
  pub method : String
  pub path : String
  pub query : String
  pub headers : Header
  pub remote_addr : String
  pub body : String
  pub body_base64 : String
  pub body_truncated_bytes : ℕ

-- One event of a stream; `event` and `data_` are bytes.
pub record StreamEvent : Type 0 where
  pub received_at : ℕ
  pub event : List ℕ
  pub data_ : List ℕ

pub record StreamRecord : Type 0 where
  pub event_count : ℕ
  pub events : List StreamEvent
  pub events_truncated : ℕ

pub record RecordedResponse : Type 0 where
  pub status : ℕ
  pub headers : Header
  pub body : String
  pub body_base64 : String
  pub body_truncated_bytes : ℕ
  pub stream : Option StreamRecord

-- Times are nanoseconds, with 0 for Go's zero time.
pub record RecordedCall : Type 0 where
  pub call_id : ℕ
  pub listener : String
  pub received_at : ℕ
  pub completed_at : ℕ
  pub latency_ms : ℤ
  pub request : RecordedRequest
  pub response : RecordedResponse
  pub web_socket : Option RecordedWsCall

-- The zero values of the request and response of a call.
abbrev pub no_request : RecordedRequest
no_request = record {
  method = "";
  path = "";
  query = "";
  headers = [];
  remote_addr = "";
  body = "";
  body_base64 = "";
  body_truncated_bytes = 0;
}

abbrev pub no_response : RecordedResponse
no_response = record {
  status = 0;
  headers = [];
  body = "";
  body_base64 = "";
  body_truncated_bytes = 0;
  stream = none;
}

-- RecordCaps: a cap of 0 or less is none.
pub record RecordCaps : Type 0 where
  pub request_body_cap_bytes : ℤ
  pub response_body_cap_bytes : ℤ
  pub stream_event_cap : ℤ

abbrev pub default_record_caps : RecordCaps
default_record_caps = record {
  request_body_cap_bytes = pos 262144;
  response_body_cap_bytes = pos 262144;
  stream_event_cap = pos 1024;
}
