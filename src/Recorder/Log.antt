-- ===== src/Recorder/Log.antt =====
-- The recorders: in memory, one JSON object a line in a file, and none.
pub mod Laws
use zolem.Base.{
  ℕ, ◌+◌, ◌-◌, pos, Bool, String, List, [], ◌∷◌, ◌++◌, Option, none, some, if◌then◌else◌, eqb,
  length,
}
use zolem.Recorder.{
  RecordedCall, RecordedWsCall, RecordedRequest, RecordedResponse, no_request, no_response,
}

pub record InMemoryRecorder : Type 0 where
  pub listener : String
  pub calls : List RecordedCall
  pub next_id : ℕ
  pub in_flight : ℕ

-- `file` is the lines written, until Close makes it nil.
pub record JsonlRecorder : Type 0 where
  pub next : ℕ
  pub file : Option (List String)

-- The types that implement Recorder.
pub data Recorder : Type 0 where
  in_memory : InMemoryRecorder → Recorder
  jsonl : JsonlRecorder → Recorder
  noop : Recorder

-- encoding/json and the file: the text of a call or none on an error, and whether a write of a
-- line succeeds; one that fails writes nothing.
pub record Disk : Type 0 where
  pub marshal : RecordedCall → Option String
  pub marshal_ws : RecordedWsCall → Option String
  pub writes : String → Bool

unfoldable pub new_in_memory_recorder : String → InMemoryRecorder
new_in_memory_recorder listener = record {
  listener = listener;
  calls = [];
  next_id = 0;
  in_flight = 0;
}

unfoldable pub next_call_id : Recorder → Recorder × ℕ
next_call_id (in_memory r) =
    (in_memory (record r { next_id = r.next_id + 1; in_flight = r.in_flight + 1 }), r.next_id + 1)
next_call_id (jsonl r) = (jsonl (record r { next = r.next + 1 }), r.next + 1)
next_call_id noop = (noop, 0)

-- The lock-protected part of Record; `in_flight` stops at 0.
abbrev pub append_call : InMemoryRecorder → RecordedCall → InMemoryRecorder
append_call r call = record r { in_flight = r.in_flight - 1; calls = r.calls ++ (call ∷ []) }

-- What RecordWS keeps of a connection.
abbrev pub call_of_ws : String → RecordedWsCall → RecordedCall
call_of_ws listener call = record {
  call_id = call.call_id;
  listener = listener;
  received_at = 0;
  completed_at = 0;
  latency_ms = pos 0;
  request = record no_request { method = call.method; path = call.path };
  response = record no_response { status = call.status };
  web_socket = some call;
}

abbrev pub write_line : Disk → Option String → JsonlRecorder → JsonlRecorder
write_line disk none r = r
write_line disk (some line) r = elim r.file [
  | none ↦ r
  | some lines ↦ if disk.writes line then record r { file = some (lines ++ (line ∷ [])) } else r
]

unfoldable pub record_call : Disk → Recorder → RecordedCall → Recorder
record_call disk (in_memory r) call = in_memory (append_call r call)
record_call disk (jsonl r) call = jsonl (write_line disk (disk.marshal call) r)
record_call disk noop call = noop

unfoldable pub record_ws : Disk → Recorder → RecordedWsCall → Recorder
record_ws disk (in_memory r) call = in_memory (append_call r (call_of_ws r.listener call))
record_ws disk (jsonl r) call = jsonl (write_line disk (disk.marshal_ws call) r)
record_ws disk noop call = noop

unfoldable pub list : Recorder → List RecordedCall
list (in_memory r) = r.calls
list _ = []

unfoldable pub clear : Recorder → Recorder × ℕ
clear (in_memory r) = (
  in_memory (record r { calls = []; next_id = if eqb r.in_flight 0 then 0 else r.next_id }),
  length r.calls,
)
clear r = (r, 0)

unfoldable pub close : Recorder → Recorder
close (jsonl r) = jsonl (record r { file = none })
close r = r
