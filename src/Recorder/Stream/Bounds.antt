-- ===== src/Recorder/Stream/Bounds.antt =====
-- What a cap keeps of the events of a stream.
use mathlib.Core.Path.{ap₂, subst₂}
use zolem.Base.{
  ℕ, zero, suc, ◌≤◌, ◌<◌, ℤ, pos, pos_part, Bool, true, false, ◌&&◌, ◌||◌, not, ◌-◌, List, [], ◌∷◌,
  ◌++◌, if◌then◌else◌, eqb, leb, length, length-append, take, length-take, ◌≡◌, refl, arith, inl,
  inr, Option-cases, Bool-cases, subst, sym, ap, ◌∙◌, ◌+◌,
}
use zolem.Recorder.{StreamEvent, StreamRecord}
use zolem.Recorder.Stream.{
  StreamAccumulator, new_sse_accumulator, new_ndjson_accumulator, append_event, parse_frame,
  record_line, record_piece, next_piece, feed_loop, feed, is_empty, read_fields, split_lines,
  join_lines, stream_record,
}
use zolem.Recorder.Stream.Laws.{feed_loop-none, feed_loop-some, append_event-keeps}

-- The first n, or all where n is 0.
abbrev pub cut {ℓ} : {A : Type ℓ} → ℕ → List A → List A
cut zero xs = xs
cut (suc n) xs = take (suc n) xs

take-[] {ℓ} : {A : Type ℓ} (n : ℕ) → take {A = A} n [] ≡ []
take-[] zero = refl
take-[] (suc n) = refl

cut-[] : (n : ℕ) → cut {A = StreamEvent} n [] ≡ []
cut-[] zero = refl
cut-[] (suc n) = refl

take-short {ℓ} :
    {A : Type ℓ} (n : ℕ) (xs : List A) (x : A)
    → length xs < n
    → take n (xs ++ (x ∷ [])) ≡ take n xs ++ (x ∷ [])
take-short zero xs x h = absurd (omega (arith, h))
take-short (suc n) [] x h = ap (λ t. x ∷ t) (take-[] n)
take-short (suc n) (y ∷ xs) x h = ap (λ t. y ∷ t) (take-short n xs x (omega (arith, h)))

take-long {ℓ} :
    {A : Type ℓ} (n : ℕ) (xs : List A) (x : A) → n ≤ length xs → take n (xs ++ (x ∷ [])) ≡ take n xs
take-long zero xs x h = refl
take-long (suc n) [] x h = absurd (omega (arith, h))
take-long (suc n) (y ∷ xs) x h = ap (λ t. y ∷ t) (take-long n xs x (omega (arith, h)))

-- An accumulator beside one with no cap: it counts what the other keeps, and keeps the first of it.
record IsCut (c : ℤ) (a b : StreamAccumulator) : Type 0 where
  buf : b.buf ≡ a.buf
  ndjson : b.ndjson ≡ a.ndjson
  capped : a.cap ≡ c
  uncapped : b.cap ≡ pos 0
  counted : a.total_events ≡ length b.events
  kept : a.events ≡ cut (pos_part c) b.events

if-IsCut :
    (t : Bool) (c : ℤ) (a b x y : StreamAccumulator)
    → IsCut c a b
    → IsCut c x y
    → IsCut c (if t then a else x) (if t then b else y)
if-IsCut true c a b x y h k = h
if-IsCut false c a b x y h k = k

-- The test of append_event.
abbrev has_room : ℕ → List StreamEvent → Bool
has_room n es = eqb n 0 || not (leb n (length es))

kept_next :
    (n : ℕ) (es : List StreamEvent) (e : StreamEvent)
    → (if has_room n (cut n es) then cut n es ++ (e ∷ []) else cut n es) ≡ cut n (es ++ (e ∷ []))
kept_next zero es e = refl
kept_next (suc n) es e = elim (Bool-cases (leb (suc n) (length es))) [
  | inl full ↦
      let closed : has_room (suc n) (take (suc n) es) ≡ false =
        ground (arith, full, length-take (suc n) es) in
      ap (λ t. if t then take (suc n) es ++ (e ∷ []) else take (suc n) es) closed
      ∙ sym (take-long (suc n) es e (ground (arith, full)))
  | inr room ↦
      let open_ : has_room (suc n) (take (suc n) es) ≡ true =
        ground (arith, room, length-take (suc n) es) in
      ap (λ t. if t then take (suc n) es ++ (e ∷ []) else take (suc n) es) open_
      ∙ sym (take-short (suc n) es e (ground (arith, room)))
]

if-ap {ℓ} :
    {A : Type ℓ} (f : StreamAccumulator → A) (t : Bool) (x y : StreamAccumulator)
    → f (if t then x else y) ≡ (if t then f x else f y)
if-ap f true x y = refl
if-ap f false x y = refl

if-same {ℓ} : {A : Type ℓ} (t : Bool) (x : A) → (if t then x else x) ≡ x
if-same true x = refl
if-same false x = refl

module _ (a : StreamAccumulator) (ts : ℕ) (event data_ : List ℕ) where
  abbrev event_of : StreamEvent
  event_of = record { received_at = ts; event = event; data_ = data_ }

  total_after : (append_event a ts event data_).total_events ≡ a.total_events + 1
  unfolding append_event
  total_after =
      if-ap (λ x. x.total_events) (has_room (pos_part a.cap) a.events) _ _
      ∙ if-same (has_room (pos_part a.cap) a.events) (a.total_events + 1)

  events_after :
      (append_event a ts event data_).events
      ≡ (if has_room (pos_part a.cap) a.events then a.events ++ (event_of ∷ []) else a.events)
  unfolding append_event
  events_after = if-ap (λ x. x.events) (has_room (pos_part a.cap) a.events) _ _

append_event-IsCut :
    (c : ℤ) (a b : StreamAccumulator) (ts : ℕ) (event data_ : List ℕ)
    → IsCut c a b
    → IsCut c (append_event a ts event data_) (append_event b ts event data_)
append_event-IsCut c a b ts event data_ h =
    let x = event_of a ts event data_ in
    let (ab, an, ac) = append_event-keeps a ts event data_ in
    let (bb, bn, bc) = append_event-keeps b ts event data_ in
    let all : (append_event b ts event data_).events ≡ b.events ++ (x ∷ []) =
      events_after b ts event data_
      ∙ ap (λ k. if has_room (pos_part k) b.events then b.events ++ (x ∷ []) else b.events)
          h.uncapped in
    let some_ : (append_event a ts event data_).events ≡ cut (pos_part c) (b.events ++ (x ∷ [])) =
      events_after a ts event data_
      ∙ ap₂ (λ k es. if has_room (pos_part k) es then es ++ (x ∷ []) else es) h.capped h.kept
      ∙ kept_next (pos_part c) b.events x in
    record {
      buf = bb ∙ h.buf ∙ sym ab;
      ndjson = bn ∙ h.ndjson ∙ sym an;
      capped = ac ∙ h.capped;
      uncapped = bc ∙ h.uncapped;
      counted =
          total_after a ts event data_
          ∙ ap (λ n. n + 1) h.counted
          ∙ sym (ap length all ∙ length-append b.events (x ∷ []));
      kept = some_ ∙ ap (cut (pos_part c)) (sym all);
    }

with_buf-IsCut :
    (c : ℤ) (a b : StreamAccumulator) (x y : List ℕ)
    → y ≡ x
    → IsCut c a b
    → IsCut c (record a { buf = x }) (record b { buf = y })
with_buf-IsCut c a b x y e h = record {
  buf = e;
  ndjson = h.ndjson;
  capped = h.capped;
  uncapped = h.uncapped;
  counted = h.counted;
  kept = h.kept;
}

parse_frame-IsCut :
    (c : ℤ) (a b : StreamAccumulator) (frame : List ℕ) (ts : ℕ)
    → IsCut c a b
    → IsCut c (parse_frame a frame ts) (parse_frame b frame ts)
unfolding parse_frame
parse_frame-IsCut c a b frame ts h =
    let fields = read_fields (split_lines frame) ([], []) in
    if-IsCut (is_empty fields.0 && is_empty (join_lines fields.1)) c a b _ _ h
      (append_event-IsCut c a b ts fields.0 (join_lines fields.1) h)

module _ (trim : List ℕ → List ℕ) (c : ℤ) where
  record_line-IsCut :
      (a b : StreamAccumulator) (l : List ℕ) (ts : ℕ)
      → IsCut c a b
      → IsCut c (record_line trim a l ts) (record_line trim b l ts)
  unfolding record_line
  record_line-IsCut a b l ts h =
      if-IsCut (is_empty (trim l)) c a b _ _ h (append_event-IsCut c a b ts [] (trim l) h)

  record_piece-IsCut :
      (a b : StreamAccumulator) (p : List ℕ) (ts : ℕ)
      → IsCut c a b
      → IsCut c (record_piece trim a p ts) (record_piece trim b p ts)
  record_piece-IsCut a b p ts h =
      subst
        (λ t.
          IsCut c (record_piece trim a p ts)
            (if t then record_line trim b p ts else parse_frame b p ts))
        (sym h.ndjson)
        (if-IsCut a.ndjson c _ _ _ _ (record_line-IsCut a b p ts h)
          (parse_frame-IsCut c a b p ts h))

  feed_loop-IsCut :
      (f : ℕ) (a b : StreamAccumulator) (ts : ℕ)
      → IsCut c a b
      → IsCut c (feed_loop trim f a ts) (feed_loop trim f b ts)
  unfolding feed_loop
  feed_loop-IsCut zero a b ts h = h
  feed_loop-IsCut (suc f) a b ts h =
      let same : next_piece b.ndjson b.buf ≡ next_piece a.ndjson a.buf =
        ap₂ next_piece h.ndjson h.buf in
      elim (Option-cases (next_piece a.ndjson a.buf)) [
        | inl e ↦
            subst₂ (IsCut c) (sym (feed_loop-none trim (suc f) a ts e))
              (sym (feed_loop-none trim (suc f) b ts (same ∙ e))) h
        | inr ((piece, rest), e) ↦
            subst₂ (IsCut c) (sym (feed_loop-some trim f a ts piece rest e))
              (sym (feed_loop-some trim f b ts piece rest (same ∙ e)))
              (feed_loop-IsCut f (record_piece trim (record a { buf = rest }) piece ts)
                (record_piece trim (record b { buf = rest }) piece ts) ts
                (record_piece-IsCut (record a { buf = rest }) (record b { buf = rest }) piece ts
                  (with_buf-IsCut c a b rest rest refl h)))
      ]

  -- The writes of a response, each with its time.
  abbrev pub feed_all : StreamAccumulator → List (List ℕ × ℕ) → StreamAccumulator
  feed_all a [] = a
  feed_all a ((p, ts) ∷ ps) = feed_all (feed trim a p ts) ps

  feed_all-IsCut :
      (a b : StreamAccumulator) (ps : List (List ℕ × ℕ))
      → IsCut c a b
      → IsCut c (feed_all a ps) (feed_all b ps)
  unfolding feed
  feed_all-IsCut a b [] h = h
  feed_all-IsCut a b ((p, ts) ∷ ps) h =
      let a' : StreamAccumulator = record a { buf = a.buf ++ p } in
      let b' : StreamAccumulator = record b { buf = b.buf ++ p } in
      feed_all-IsCut (feed trim a p ts) (feed trim b p ts) ps (
        subst (λ n. IsCut c (feed_loop trim (length a'.buf) a' ts) (feed_loop trim n b' ts))
          (ap (λ x. length (x ++ p)) (sym h.buf))
          (feed_loop-IsCut (length a'.buf) a' b' ts
            (with_buf-IsCut c a b (a.buf ++ p) (b.buf ++ p) (ap (λ x. x ++ p) h.buf) h)))

  -- The record of the events of a stream that no cap has cut.
  abbrev pub summary : List StreamEvent → StreamRecord
  summary all = record {
    event_count = length all;
    events = cut (pos_part c) all;
    events_truncated = length all - length (cut (pos_part c) all);
  }

  stream_record-IsCut : (a b : StreamAccumulator) → IsCut c a b → stream_record a ≡ summary b.events
  unfolding stream_record
  stream_record-IsCut a b h = rw (h.counted, h.kept) refl

  -- Whatever a response writes, over SSE or NDJSON and at whatever times, the record of its stream
  -- is made of the events that the same writes give without a cap: their number, the first of them
  -- as many as the cap allows (all where it is not positive), and the number of the others as
  -- truncated.
  pub stream_record-feed_all :
      (ps : List (List ℕ × ℕ))
      → (stream_record (feed_all (new_sse_accumulator c) ps)
          ≡ summary (feed_all (new_sse_accumulator (pos 0)) ps).events)
        × (stream_record (feed_all (new_ndjson_accumulator c) ps)
            ≡ summary (feed_all (new_ndjson_accumulator (pos 0)) ps).events)
  unfolding new_sse_accumulator new_ndjson_accumulator
  stream_record-feed_all ps = (
    stream_record-IsCut _ _ (feed_all-IsCut _ _ ps (start false)),
    stream_record-IsCut _ _ (feed_all-IsCut _ _ ps (start true)),
  )
    where
      empty : ℤ → Bool → StreamAccumulator
      empty cap nd = record { cap = cap; ndjson = nd; buf = []; events = []; total_events = 0 }

      start : (nd : Bool) → IsCut c (empty c nd) (empty (pos 0) nd)
      start nd = record {
        buf = refl;
        ndjson = refl;
        capped = refl;
        uncapped = refl;
        counted = refl;
        kept = sym (cut-[] (pos_part c));
      }
