-- ===== src/Recorder/Stream.antt =====
-- streamAccumulator, and the writers of internal/response/sse.go whose output it reads.
pub mod Laws
pub mod Bounds
pub mod Events
use zolem.Base.{
  ℕ, zero, suc, ◌+◌, ℤ, pos_part, Bool, true, false, not, ◌-◌, ◌&&◌, ◌||◌, List, [], ◌∷◌, ◌++◌,
  Option, none, some, if◌then◌else◌, leb, eqb, length, drop, codes, has_prefix,
}
use zolem.Recorder.{StreamEvent, StreamRecord}

pub record StreamAccumulator : Type 0 where
  pub cap : ℤ
  pub ndjson : Bool
  pub buf : List ℕ
  pub events : List StreamEvent
  pub total_events : ℕ

unfoldable pub new_sse_accumulator : ℤ → StreamAccumulator
new_sse_accumulator cap = record {
  cap = cap;
  ndjson = false;
  buf = [];
  events = [];
  total_events = 0;
}

unfoldable pub new_ndjson_accumulator : ℤ → StreamAccumulator
new_ndjson_accumulator cap = record {
  cap = cap;
  ndjson = true;
  buf = [];
  events = [];
  total_events = 0;
}

unfoldable pub append_event : StreamAccumulator → ℕ → List ℕ → List ℕ → StreamAccumulator
append_event a ts event data_ =
    if eqb (pos_part a.cap) 0 || not (leb (pos_part a.cap) (length a.events))
    then record a {
      total_events = a.total_events + 1;
      events = a.events ++ (record { received_at = ts; event = event; data_ = data_ } ∷ []);
    }
    else record a { total_events = a.total_events + 1 }

-- The value of a field, less one space.
abbrev drop_space : List ℕ → List ℕ
drop_space [] = []
drop_space (c ∷ cs) = if eqb c 0x20 then cs else c ∷ cs

abbrev pub sse_field_value : List ℕ → List ℕ → List ℕ
sse_field_value line prefix =
    drop_space (if has_prefix prefix line then drop (length prefix) line else line)

-- Never called on no lines.
abbrev pub extend : ℕ → List (List ℕ) → List (List ℕ)
extend c [] = (c ∷ []) ∷ []
extend c (l ∷ ls) = (c ∷ l) ∷ ls

-- bytes.Split(frame, "\n").
unfoldable pub split_lines : List ℕ → List (List ℕ)
split_lines [] = [] ∷ []
split_lines (c ∷ cs) = let rest = split_lines cs in if eqb c 10 then [] ∷ rest else extend c rest

-- strings.Join(lines, "\n").
unfoldable pub join_lines : List (List ℕ) → List ℕ
join_lines [] = []
join_lines (l ∷ []) = l
join_lines (l ∷ m ∷ ls) = l ++ (10 ∷ join_lines (m ∷ ls))

-- The event and the data lines after one more line of a frame, and after all of them.
abbrev pub read_field : List ℕ → List ℕ × List (List ℕ) → List ℕ × List (List ℕ)
read_field l (event, data_lines) =
    if has_prefix (codes "event:") l
    then (sse_field_value l (codes "event:"), data_lines)
    else if has_prefix (codes "data:") l
    then (event, data_lines ++ (sse_field_value l (codes "data:") ∷ []))
    else (event, data_lines)

unfoldable pub read_fields : List (List ℕ) → List ℕ × List (List ℕ) → List ℕ × List (List ℕ)
read_fields [] fields = fields
read_fields (l ∷ ls) fields = read_fields ls (read_field l fields)

abbrev pub is_empty : List ℕ → Bool
is_empty [] = true
is_empty _ = false

unfoldable pub parse_frame : StreamAccumulator → List ℕ → ℕ → StreamAccumulator
unfolding read_fields join_lines split_lines append_event
parse_frame a frame ts =
    let (event, data_lines) = read_fields (split_lines frame) ([], []) in
    let data_ = join_lines data_lines in
    if is_empty event && is_empty data_ then a else append_event a ts event data_

abbrev pub before : ℕ → Option (List ℕ × List ℕ) → Option (List ℕ × List ℕ)
before c none = none
before c (some (piece, rest)) = some (c ∷ piece, rest)

-- The bytes before the first "\n\n", and those after it.
unfoldable pub next_frame : List ℕ → Option (List ℕ × List ℕ)
next_frame [] = none
next_frame (c ∷ []) = none
next_frame (c ∷ d ∷ cs) =
    let later = next_frame (d ∷ cs) in
    if eqb c 10 && eqb d 10 then some ([], cs) else before c later

-- The bytes before the first newline, and those after it.
unfoldable pub next_line : List ℕ → Option (List ℕ × List ℕ)
next_line [] = none
next_line (c ∷ cs) = let later = next_line cs in if eqb c 10 then some ([], cs) else before c later

abbrev pub next_piece : Bool → List ℕ → Option (List ℕ × List ℕ)
next_piece true buf = next_line buf
next_piece false buf = next_frame buf

-- strings.TrimSpace is a parameter.
module _ (trim_space : List ℕ → List ℕ) where
  -- A line of the NDJSON loop.
  unfoldable pub record_line : StreamAccumulator → List ℕ → ℕ → StreamAccumulator
  unfolding append_event
  record_line a l ts = if is_empty (trim_space l) then a else append_event a ts [] (trim_space l)

  -- What a round of either loop of feed does with a piece.
  abbrev pub record_piece : StreamAccumulator → List ℕ → ℕ → StreamAccumulator
  record_piece a piece ts = if a.ndjson then record_line a piece ts else parse_frame a piece ts

  -- Either loop of feed, on fuel.
  unfoldable pub feed_loop : ℕ → StreamAccumulator → ℕ → StreamAccumulator
  feed_loop zero a ts = a
  feed_loop (suc fuel) a ts = elim (next_piece a.ndjson a.buf) [
    | none ↦ a
    | some (piece, rest) ↦ feed_loop fuel (record_piece (record a { buf = rest }) piece ts) ts
  ]

  -- Every round takes a byte or more off the buffer.
  unfoldable pub feed : StreamAccumulator → List ℕ → ℕ → StreamAccumulator
  unfolding feed_loop
  feed a p ts = let b = record a { buf = a.buf ++ p } in feed_loop (length b.buf) b ts

unfoldable pub stream_record : StreamAccumulator → StreamRecord
stream_record a = record {
  event_count = a.total_events;
  events = a.events;
  events_truncated = a.total_events - length a.events;
}

-- SSEWriter.WriteEvent and WriteData, as the bytes they print.
unfoldable pub write_event : List ℕ → List ℕ → List ℕ
write_event name data_ =
    codes "event: " ++ (name ++ (10 ∷ (codes "data: " ++ (data_ ++ (10 ∷ 10 ∷ [])))))

unfoldable pub write_data : List ℕ → List ℕ
write_data data_ = codes "data: " ++ (data_ ++ (10 ∷ 10 ∷ []))
