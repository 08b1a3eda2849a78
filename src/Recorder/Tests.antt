-- ===== src/Recorder/Tests.antt =====
-- Tests and witnesses of the recorder.
use zolem.Base.{
  same, ℕ, ◌-◌, pos, false, List, [], ◌∷◌, ◌++◌, none, length, codes, ◌≡◌, refl, arith,
}
use zolem.Recorder.Redact.{Names, redact_headers, is_credential_header, cut_space, redacted_value}
use zolem.Recorder.Redact.Laws.{Matching, redact_headers-Matching}
use zolem.Recorder.{Header, RecordedCall, no_request, no_response}
use zolem.Recorder.Log.{
  Recorder, in_memory, Disk, new_in_memory_recorder, next_call_id, record_call, clear,
}
use zolem.Recorder.Log.Laws.{Listener, Step, Reachable, IsLog, Reachable-IsLog}
use zolem.Recorder.Capture.{new_recording_request_body, new_recording_body, snapshot}
use zolem.Recorder.Capture.Laws.{
  limit, capture_all, capture_body_all, snapshot-capture_all, capture_body_all-snapshot,
}
use zolem.Recorder.Stream.{new_sse_accumulator, new_ndjson_accumulator, feed, stream_record}
use zolem.Recorder.Stream.Laws.{feed-append}
use zolem.Recorder.Stream.Bounds.{feed_all, summary, stream_record-feed_all}
use zolem.Recorder.Stream.Events.{IsEvent, write_all, append_all, feed-write_all}

abbrev full_disk : Disk
full_disk = record { marshal = λ c. none; marshal_ws = λ c. none; writes = λ l. false }

abbrev call_of : ℕ → RecordedCall
call_of id = record {
  call_id = id;
  listener = "main";
  received_at = 0;
  completed_at = 0;
  latency_ms = pos 0;
  request = no_request;
  response = no_response;
  web_socket = none;
}

-- A first request is in flight when a second has ended and the calls are cleared.
abbrev two_later : Recorder
two_later =
    (clear (
      record_call full_disk
        (next_call_id (next_call_id (in_memory (new_in_memory_recorder "main"))).0).0
        (call_of 2))).0

abbrev later : Listener
later = record { recorder = two_later; pending = 1 ∷ [] }

later-Reachable : Reachable full_disk "main" later
unfolding next_call_id record_call clear new_in_memory_recorder
later-Reachable =
    let r0 : Recorder = in_memory (new_in_memory_recorder "main") in
    let r1 : Recorder = (next_call_id r0).0 in
    let r2 : Recorder = (next_call_id r1).0 in
    Reachable.later _ _
      (Reachable.later _ _
        (Reachable.later _ _ (Reachable.later _ _ Reachable.start (Step.arrive r0 []))
          (Step.arrive r1 (1 ∷ [])))
        (Step.complete r2 [] (1 ∷ []) (call_of 2)))
      (Step.clears (record_call full_disk r2 (call_of 2)) (1 ∷ []))

Reachable-IsLog_example : IsLog (1 ∷ []) two_later
Reachable-IsLog_example = Reachable-IsLog full_disk "main" later later-Reachable

-- The ids go on after the clear, since a request is in flight.
next_after_clear : (next_call_id two_later).1 ≡ 3
unfolding next_call_id record_call clear new_in_memory_recorder
next_after_clear = refl

snapshot-capture_all_example :
    snapshot (capture_all (new_recording_request_body (pos 3)) ((1 ∷ 2 ∷ []) ∷ (3 ∷ 4 ∷ []) ∷ []))
    ≡ (limit (pos 3) (1 ∷ 2 ∷ 3 ∷ 4 ∷ []), 4 - length (limit (pos 3) (1 ∷ 2 ∷ 3 ∷ 4 ∷ [])))
snapshot-capture_all_example = snapshot-capture_all (pos 3) ((1 ∷ 2 ∷ []) ∷ (3 ∷ 4 ∷ []) ∷ [])

snapshot_of_four :
    snapshot (capture_all (new_recording_request_body (pos 3)) ((1 ∷ 2 ∷ []) ∷ (3 ∷ 4 ∷ []) ∷ []))
    ≡ (1 ∷ 2 ∷ 3 ∷ [], 1)
snapshot_of_four = snapshot-capture_all_example

capture_body_all-snapshot_example :
    let b = capture_body_all (new_recording_body (pos 3)) ((1 ∷ 2 ∷ []) ∷ (3 ∷ 4 ∷ []) ∷ []) in
    (b.body, b.body_truncated)
    ≡ snapshot (capture_all (new_recording_request_body (pos 3)) ((1 ∷ 2 ∷ []) ∷ (3 ∷ 4 ∷ []) ∷ []))
capture_body_all-snapshot_example =
    capture_body_all-snapshot (pos 3) ((1 ∷ 2 ∷ []) ∷ (3 ∷ 4 ∷ []) ∷ [])

-- Texts of the tests have no space around them.
abbrev as_is : List ℕ → List ℕ
as_is xs = xs

feed-append_example :
    feed as_is (feed as_is (new_sse_accumulator (pos 2)) (codes "data: a") 5) (10 ∷ 10 ∷ []) 5
    ≡ feed as_is (new_sse_accumulator (pos 2)) (codes "data: a" ++ (10 ∷ 10 ∷ [])) 5
feed-append_example =
    feed-append as_is (new_sse_accumulator (pos 2)) (codes "data: a") (10 ∷ 10 ∷ []) 5

abbrev lines_3 : List (List ℕ × ℕ)
lines_3 =
    (codes "{" ++ (10 ∷ []), 5) ∷ (codes "{" ++ (10 ∷ []), 6) ∷ (codes "{" ++ (10 ∷ []), 7) ∷ []

stream_record-feed_all_example :
    (stream_record (feed_all as_is (pos 2) (new_sse_accumulator (pos 2)) lines_3)
      ≡ summary as_is (pos 2) (feed_all as_is (pos 2) (new_sse_accumulator (pos 0)) lines_3).events)
    × (stream_record (feed_all as_is (pos 2) (new_ndjson_accumulator (pos 2)) lines_3)
        ≡ summary as_is
            (pos 2)
            (feed_all as_is (pos 2) (new_ndjson_accumulator (pos 0)) lines_3).events)
stream_record-feed_all_example = stream_record-feed_all as_is (pos 2) lines_3

one_dropped :
    (stream_record
      (feed_all as_is (pos 2) (new_ndjson_accumulator (pos 2)) lines_3)).events_truncated
    ≡ 1
unfolding stream_record feed new_ndjson_accumulator zolem.Recorder.Stream.next_line
    zolem.Recorder.Stream.record_line
one_dropped = refl

abbrev ping : List ℕ × List ℕ
ping = (codes "ping", codes "{}")

ping-IsEvent : IsEvent ping
ping-IsEvent = (
  (omega arith, (omega arith, (omega arith, (omega arith, tt)))),
  (omega arith, (omega arith, tt)),
  refl,
)

feed-write_all_example :
    feed as_is (new_sse_accumulator (pos 9)) (write_all (ping ∷ ping ∷ [])) 5
    ≡ append_all (new_sse_accumulator (pos 9)) 5 (ping ∷ ping ∷ [])
feed-write_all_example =
    feed-write_all as_is (pos 9) (ping ∷ ping ∷ []) 5 (ping-IsEvent, (ping-IsEvent, tt))

-- Names that are canonical already.
abbrev plain_names : Names
plain_names = record { canonical = λ k. k; lower = codes; equal_fold = same }

abbrev with_token : List ℕ → Header
with_token token =
    ("Authorization", (codes "Bearer " ++ token) ∷ []) ∷ ("Accept", codes "*/*" ∷ []) ∷ []

alike_tokens : Matching plain_names (with_token (codes "one")) (with_token (codes "another"))
unfolding is_credential_header cut_space
alike_tokens = (refl, ((refl, refl), tt), (refl, refl, tt))

redact_headers-Matching_example :
    redact_headers plain_names (with_token (codes "one"))
    ≡ redact_headers plain_names (with_token (codes "another"))
redact_headers-Matching_example =
    redact_headers-Matching plain_names (with_token (codes "one")) (with_token (codes "another"))
      alike_tokens

token_hidden : redact_headers plain_names (with_token (codes "one")) ≡ with_token redacted_value
unfolding redact_headers
token_hidden = refl
