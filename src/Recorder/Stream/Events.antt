-- ===== src/Recorder/Stream/Events.antt =====
-- What the SSE writers print is what the recorder reads.
use zolem.Base.{
  ℕ, zero, suc, ◌≤◌, ℤ, false, ◌&&◌, List, [], ◌∷◌, ◌++◌, some, if◌then◌else◌, eqb, length, All,
  codes, ◌≡◌, refl, sym, ◌∙◌, ap, ◌≢◌, arith,
}
use zolem.Recorder.Stream.{
  StreamAccumulator, append_event, parse_frame, next_frame, before, split_lines, join_lines,
  read_fields, is_empty, next_piece, record_line, record_piece, feed_loop, feed,
  new_sse_accumulator, write_event,
}
use zolem.Recorder.Stream.Laws.{
  next_piece-length, next_piece-empty, record_piece-Keeps, with_buf, append_event-keeps,
  feed-append, feed_loop-some, feed_loop-none,
}

-- Bytes with no newline.
abbrev pub Line : List ℕ → Type 0
Line xs = All (λ c. c ≢ 10) xs

next_frame-Line :
    (xs rest : List ℕ) → Line xs → next_frame (xs ++ (10 ∷ 10 ∷ rest)) ≡ some (xs, rest)
unfolding next_frame
next_frame-Line [] rest h = refl
next_frame-Line (x ∷ []) rest (h, t) = ground (arith, h)
next_frame-Line (x ∷ y ∷ xs) rest (h, t) =
    let no : eqb x 10 ≡ false = ground (arith, h) in
    rw no (ap (before x) (next_frame-Line (y ∷ xs) rest t))

split_lines-Line : (xs : List ℕ) → Line xs → split_lines xs ≡ xs ∷ []
unfolding split_lines
split_lines-Line [] h = refl
split_lines-Line (x ∷ xs) (h, t) = rw (split_lines-Line xs t) (ground (arith, h))

split_lines-newline :
    (xs ys : List ℕ) → Line xs → split_lines (xs ++ (10 ∷ ys)) ≡ xs ∷ split_lines ys
unfolding split_lines
split_lines-newline [] ys h = refl
split_lines-newline (x ∷ xs) ys (h, t) = rw (split_lines-newline xs ys t) (ground (arith, h))

next_frame-newline :
    (xs ys p r : List ℕ) (d : ℕ)
    → Line xs
    → d ≢ 10
    → next_frame (d ∷ ys) ≡ some (p, r)
    → next_frame (xs ++ (10 ∷ d ∷ ys)) ≡ some (xs ++ (10 ∷ p), r)
unfolding next_frame
next_frame-newline [] ys p r d h n e =
    let no : eqb d 10 ≡ false = ground (arith, n) in rw no (ap (before 10) e)
next_frame-newline (x ∷ []) ys p r d (h, t) n e =
    let no : eqb x 10 ≡ false = ground (arith, h) in
    rw no (ap (before x) (next_frame-newline [] ys p r d tt n e))
next_frame-newline (x ∷ y ∷ xs) ys p r d (h, t) n e =
    let no : eqb x 10 ≡ false = ground (arith, h) in
    rw no (ap (before x) (next_frame-newline (y ∷ xs) ys p r d t n e))

-- The bytes of an event before its blank line.
abbrev frame_of : List ℕ → List ℕ → List ℕ
frame_of name data_ = (codes "event: " ++ name) ++ (10 ∷ (codes "data: " ++ data_))

Line-named : (xs : List ℕ) → Line xs → Line (codes "event: " ++ xs)
Line-named xs h = (
  omega arith,
  (omega arith, (omega arith, (omega arith, (omega arith, (omega arith, (omega arith, h)))))),
)

Line-data : (xs : List ℕ) → Line xs → Line (codes "data: " ++ xs)
Line-data xs h =
    (omega arith, (omega arith, (omega arith, (omega arith, (omega arith, (omega arith, h))))))

next_frame-write_event :
    (name data_ : List ℕ)
    → Line name
    → Line data_
    → next_frame (write_event name data_) ≡ some (frame_of name data_, [])
unfolding write_event
next_frame-write_event name data_ h k =
    next_frame-newline (codes "event: " ++ name) _ (codes "data: " ++ data_) [] 0x64
      (Line-named name h) (omega arith)
      (next_frame-Line (codes "data: " ++ data_) [] (Line-data data_ k))

read_fields-frame_of :
    (name data_ : List ℕ)
    → Line name
    → Line data_
    → read_fields (split_lines (frame_of name data_)) ([], []) ≡ (name, data_ ∷ [])
unfolding read_fields
read_fields-frame_of name data_ h k =
    ap (λ ls. read_fields ls ([], []))
      (split_lines-newline (codes "event: " ++ name) (codes "data: " ++ data_) (Line-named name h)
        ∙ ap (λ ls. (codes "event: " ++ name) ∷ ls)
            (split_lines-Line (codes "data: " ++ data_) (Line-data data_ k)))

parse_frame-frame_of :
    (a : StreamAccumulator) (name data_ : List ℕ) (ts : ℕ)
    → Line name
    → Line data_
    → is_empty name && is_empty data_ ≡ false
    → parse_frame a (frame_of name data_) ts ≡ append_event a ts name data_
unfolding parse_frame join_lines
parse_frame-frame_of a name data_ ts h k some_text =
    rw (read_fields-frame_of name data_ h k) (rw some_text refl)

-- What WriteEvent prints for the events in turn.
abbrev pub write_all : List (List ℕ × List ℕ) → List ℕ
write_all [] = []
write_all ((name, data_) ∷ es) = write_event name data_ ++ write_all es

abbrev pub append_all : StreamAccumulator → ℕ → List (List ℕ × List ℕ) → StreamAccumulator
append_all a ts [] = a
append_all a ts ((name, data_) ∷ es) = append_all (append_event a ts name data_) ts es

-- An event that a frame can carry.
abbrev pub IsEvent : List ℕ × List ℕ → Type 0
IsEvent (name, data_) = Line name × Line data_ × (is_empty name && is_empty data_ ≡ false)

module _ (trim : List ℕ → List ℕ) where
  -- A buffer that is one piece is done in one round.
  feed_loop-single :
      (f : ℕ) (a : StreamAccumulator) (piece : List ℕ) (ts : ℕ)
      → length a.buf ≤ f
      → next_piece a.ndjson a.buf ≡ some (piece, [])
      → feed_loop trim f a ts ≡ record_piece trim (with_buf [] a) piece ts
  feed_loop-single zero a piece ts in_f e =
      absurd (omega (arith, in_f, next_piece-length a.ndjson a.buf piece [] e))
  feed_loop-single (suc f) a piece ts in_f e =
      feed_loop-some trim f a ts piece [] e
      ∙ feed_loop-none trim f (record_piece trim (with_buf [] a) piece ts) ts (
          next_piece-empty trim (record_piece trim (with_buf [] a) piece ts)
            (omega (arith, ap length (record_piece-Keeps trim (with_buf [] a) piece ts).0)))

  -- Written to an SSE accumulator between frames, an event with a name and data of one line each, not
  -- both empty, is recorded as it is.
  feed-write_event :
      (a : StreamAccumulator) (name data_ : List ℕ) (ts : ℕ)
      → a.buf ≡ []
      → a.ndjson ≡ false
      → Line name
      → Line data_
      → is_empty name && is_empty data_ ≡ false
      → feed trim a (write_event name data_) ts ≡ append_event a ts name data_
  unfolding feed
  feed-write_event a name data_ ts e n h k some_text =
      let w : List ℕ = write_event name data_ in
      let found : next_piece a.ndjson w ≡ some (frame_of name data_, []) =
        ap (λ t. next_piece t w) n ∙ next_frame-write_event name data_ h k in
      ap (λ buf. feed_loop trim (length (buf ++ w)) (with_buf (buf ++ w) a) ts) e
      ∙ feed_loop-single (length w) (with_buf w a) (frame_of name data_) ts (omega arith) found
      ∙ ap
          (λ t.
            if t
            then record_line trim (with_buf [] a) (frame_of name data_) ts
            else parse_frame (with_buf [] a) (frame_of name data_) ts)
          n
      ∙ parse_frame-frame_of (with_buf [] a) name data_ ts h k some_text
      ∙ ap (λ buf. append_event (with_buf buf a) ts name data_) (sym e)

  feed-write_all-from :
      (a : StreamAccumulator) (es : List (List ℕ × List ℕ)) (ts : ℕ)
      → a.buf ≡ []
      → a.ndjson ≡ false
      → All IsEvent es
      → feed trim a (write_all es) ts ≡ append_all a ts es
  unfolding feed
  feed-write_all-from a [] ts e n h =
      ap (λ buf. feed_loop trim (length (buf ++ [])) (with_buf (buf ++ []) a) ts) e
      ∙ ap (λ buf. with_buf buf a) (sym e)
  feed-write_all-from a ((name, data_) ∷ es) ts e n ((h, k, some_text), rest) =
      sym (feed-append trim a (write_event name data_) (write_all es) ts)
      ∙ ap (λ b. feed trim b (write_all es) ts) (feed-write_event a name data_ ts e n h k some_text)
      ∙ feed-write_all-from (append_event a ts name data_) es ts
          ((append_event-keeps a ts name data_).0 ∙ e) ((append_event-keeps a ts name data_).1 ∙ n)
          rest

  -- What WriteEvent prints for events of one line each, with a name or data, is recorded as those
  -- events, in order.
  pub feed-write_all :
      (cap : ℤ) (es : List (List ℕ × List ℕ)) (ts : ℕ)
      → All IsEvent es
      → feed trim (new_sse_accumulator cap) (write_all es) ts
        ≡ append_all (new_sse_accumulator cap) ts es
  unfolding new_sse_accumulator
  feed-write_all cap es ts h = feed-write_all-from (new_sse_accumulator cap) es ts refl refl h
