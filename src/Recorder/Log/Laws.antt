-- ===== src/Recorder/Log/Laws.antt =====
-- The ids of an in-memory recorder over concurrent requests.
use zolem.Base.{
  count, count-append, ℕ, ◌+◌, ◌≤◌, ◌<◌, String, List, [], ◌∷◌, ◌++◌, if◌then◌else◌, eqb, length,
  length-append, ◌≡◌, refl, arith, ap,
}
use zolem.Recorder.{RecordedCall, RecordedWsCall}
use zolem.Recorder.Log.{
  InMemoryRecorder, Recorder, in_memory, jsonl, noop, Disk, new_in_memory_recorder, next_call_id,
  append_call, call_of_ws, record_call, record_ws, clear,
}

-- A listener's in-memory recorder, with the ids of the requests whose handlers run.
pub record Listener : Type 0 where
  pub recorder : Recorder
  pub pending : List ℕ

-- What can happen to it, in any order: a request arrives, a handler returns and its call or its
-- WebSocket connection is recorded, a handler panics so that nothing is recorded, a client clears.
pub data Step (disk : Disk) : Listener → Listener → Type 0 where
  arrive :
      (r : Recorder) (ids : List ℕ)
      → Step disk
          (record { recorder = r; pending = ids })
          (record { recorder = (next_call_id r).0; pending = (next_call_id r).1 ∷ ids })
  complete :
      (r : Recorder) (before after : List ℕ) (call : RecordedCall)
      → Step disk
          (record { recorder = r; pending = before ++ (call.call_id ∷ after) })
          (record { recorder = record_call disk r call; pending = before ++ after })
  complete_ws :
      (r : Recorder) (before after : List ℕ) (call : RecordedWsCall)
      → Step disk
          (record { recorder = r; pending = before ++ (call.call_id ∷ after) })
          (record { recorder = record_ws disk r call; pending = before ++ after })
  abort :
      (r : Recorder) (before after : List ℕ) (id : ℕ)
      → Step disk
          (record { recorder = r; pending = before ++ (id ∷ after) })
          (record { recorder = r; pending = before ++ after })
  clears :
      (r : Recorder) (ids : List ℕ)
      → Step disk
          (record { recorder = r; pending = ids })
          (record { recorder = (clear r).0; pending = ids })

pub data Reachable (disk : Disk) (name : String) : Listener → Type 0 where
  start :
      Reachable disk name
        (record { recorder = in_memory (new_in_memory_recorder name); pending = [] })
  later : (s t : Listener) → Reachable disk name s → Step disk s t → Reachable disk name t

abbrev pub count_calls : ℕ → List RecordedCall → ℕ
count_calls x [] = 0
count_calls x (c ∷ cs) = (if eqb x c.call_id then 1 else 0) + count_calls x cs

count_calls-append :
    (x : ℕ) (cs : List RecordedCall) (c : RecordedCall)
    → count_calls x (cs ++ (c ∷ [])) ≡ count_calls x cs + (if eqb x c.call_id then 1 else 0)
count_calls-append x [] c = omega arith
count_calls-append x (d ∷ cs) c = omega (arith, count_calls-append x cs c)

-- How often an id is that of a request in flight or of a recorded call.
abbrev pub uses : ℕ → List ℕ → InMemoryRecorder → ℕ
uses x ids r = count x ids + count_calls x r.calls

abbrev pub IsLog : List ℕ → Recorder → Type 0
IsLog ids (in_memory r) =
    (length ids ≤ r.in_flight) × ((x : ℕ) → (uses x ids r ≤ 1) × (r.next_id < x → uses x ids r ≡ 0))
IsLog ids _ = ⊥

IsLog-append :
    (ids before after : List ℕ) (r : InMemoryRecorder) (call : RecordedCall)
    → ids ≡ before ++ (call.call_id ∷ after)
    → IsLog ids (in_memory r)
    → IsLog (before ++ after) (in_memory (append_call r call))
IsLog-append ids before after r call e h = (
  omega (
    arith,
    length-append before (call.call_id ∷ after),
    length-append before after,
    ap length e,
    h.0,
  ),
  λ x.
      let same : uses x (before ++ after) (append_call r call) ≡ uses x ids r = omega (
        arith,
        count-append x before (call.call_id ∷ after),
        count-append x before after,
        count_calls-append x r.calls call,
        ap (count x) e,
      ) in
      (omega (arith, same, (h.1 x).0), λ k. omega (arith, same, (h.1 x).1 k)),
)

IsLog-next_call_id :
    (ids : List ℕ) (r : Recorder)
    → IsLog ids r
    → IsLog ((next_call_id r).1 ∷ ids) (next_call_id r).0
unfolding next_call_id
IsLog-next_call_id ids (in_memory r) h =
    (omega (arith, h.0), λ x. ground (arith, (h.1 x).0, (h.1 x).1))
IsLog-next_call_id ids (jsonl r) h = absurd h
IsLog-next_call_id ids noop h = absurd h

IsLog-drop :
    (before after : List ℕ) (id : ℕ) (r : Recorder)
    → IsLog (before ++ (id ∷ after)) r
    → IsLog (before ++ after) r
IsLog-drop before after id (in_memory r) h = (
  omega (arith, length-append before (id ∷ after), length-append before after, h.0),
  λ x.
      let fewer : uses x (before ++ after) r ≤ uses x (before ++ (id ∷ after)) r =
        omega (arith, count-append x before (id ∷ after), count-append x before after) in
      (omega (arith, fewer, (h.1 x).0), λ k. omega (arith, fewer, (h.1 x).1 k)),
)
IsLog-drop before after id (jsonl r) h = absurd h
IsLog-drop before after id noop h = absurd h

length-zero : (ids : List ℕ) (x : ℕ) → length ids ≡ 0 → count x ids ≡ 0
length-zero [] x e = refl
length-zero (y ∷ ids) x e = omega (arith, e)

IsLog-clear : (ids : List ℕ) (r : Recorder) → IsLog ids r → IsLog ids (clear r).0
unfolding clear
IsLog-clear ids (in_memory r) h =
    (h.0, λ x. ground (arith, h.0, (h.1 x).0, (h.1 x).1, length-zero ids x))
IsLog-clear ids (jsonl r) h = absurd h
IsLog-clear ids noop h = absurd h

IsLog-Step :
    (disk : Disk) (s t : Listener)
    → Step disk s t
    → IsLog s.pending s.recorder
    → IsLog t.pending t.recorder
unfolding record_call record_ws
IsLog-Step disk s t (Step.arrive r ids) h = IsLog-next_call_id ids r h
IsLog-Step disk s t (Step.complete (in_memory r) before after call) h =
    IsLog-append (before ++ (call.call_id ∷ after)) before after r call refl h
IsLog-Step disk s t (Step.complete_ws (in_memory r) before after call) h =
    IsLog-append (before ++ (call.call_id ∷ after)) before after r (call_of_ws r.listener call) refl
      h
IsLog-Step disk s t (Step.abort r before after id) h = IsLog-drop before after id r h
IsLog-Step disk s t (Step.clears r ids) h = IsLog-clear ids r h
IsLog-Step disk s t (Step.complete (jsonl r) before after call) h = absurd h
IsLog-Step disk s t (Step.complete noop before after call) h = absurd h
IsLog-Step disk s t (Step.complete_ws (jsonl r) before after call) h = absurd h
IsLog-Step disk s t (Step.complete_ws noop before after call) h = absurd h

-- Whatever order requests arrive, finish, panic and calls are cleared in, no id is used twice by
-- the recorded calls and the requests in flight.
pub Reachable-IsLog :
    (disk : Disk) (name : String) (s : Listener)
    → Reachable disk name s
    → IsLog s.pending s.recorder
unfolding new_in_memory_recorder
Reachable-IsLog disk name s Reachable.start = (omega arith, λ x. (omega arith, λ k. refl))
Reachable-IsLog disk name u (Reachable.later s t path step) =
    IsLog-Step disk s t step (Reachable-IsLog disk name s path)
