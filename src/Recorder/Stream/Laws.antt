-- ===== src/Recorder/Stream/Laws.antt =====
-- The events of a stream depend on its bytes alone, not on the chunks they come in.
use zolem.Base.{
  ℕ, zero, suc, ◌+◌, ◌≤◌, ◌<◌, pos_part, Bool, true, false, not, ◌&&◌, ◌||◌, List, [], ◌∷◌, ◌++◌,
  Option, none, some, if◌then◌else◌, leb, eqb, length, length-append, append_assoc, ◌≡◌, refl, sym,
  ◌∙◌, ap, subst, arith, inl, inr, Bool-cases, Option-cases,
}
use zolem.Recorder.Stream.{
  StreamAccumulator, append_event, parse_frame, record_line, record_piece, next_frame, next_line,
  next_piece, before, feed_loop, feed, is_empty, read_fields, split_lines, join_lines,
}

abbrev append_rest : List ℕ → Option (List ℕ × List ℕ) → Option (List ℕ × List ℕ)
append_rest q none = none
append_rest q (some (piece, rest)) = some (piece, rest ++ q)

-- A piece that is complete stays the first when more bytes arrive.
next_frame-append :
    (xs q piece rest : List ℕ)
    → next_frame xs ≡ some (piece, rest)
    → next_frame (xs ++ q) ≡ some (piece, rest ++ q)
unfolding next_frame
next_frame-append [] q piece rest h = cc
next_frame-append (c ∷ []) q piece rest h = cc
next_frame-append (c ∷ d ∷ cs) q piece rest h = elim (Bool-cases (eqb c 10 && eqb d 10)) [
  | inl here ↦ rw here (ap (append_rest q) (rw here at h))
  | inr later ↦ elim (Option-cases (next_frame (d ∷ cs))) [
    | inl none_left ↦ cc
    | inr ((p, r), found) ↦ rw later (
        ap (before c) (next_frame-append (d ∷ cs) q p r found)
        ∙ ap (append_rest q) (ap (before c) (sym found) ∙ (rw later at h)))
  ]
]

next_line-append :
    (xs q piece rest : List ℕ)
    → next_line xs ≡ some (piece, rest)
    → next_line (xs ++ q) ≡ some (piece, rest ++ q)
unfolding next_line
next_line-append [] q piece rest h = cc
next_line-append (c ∷ cs) q piece rest h = elim (Bool-cases (eqb c 10)) [
  | inl here ↦ rw here (ap (append_rest q) (rw here at h))
  | inr later ↦ elim (Option-cases (next_line cs)) [
    | inl none_left ↦ cc
    | inr ((p, r), found) ↦ rw later (
        ap (before c) (next_line-append cs q p r found)
        ∙ ap (append_rest q) (ap (before c) (sym found) ∙ (rw later at h)))
  ]
]

abbrev Shorter : List ℕ → Option (List ℕ × List ℕ) → Type 0
Shorter xs none = Unit
Shorter xs (some (piece, rest)) = length rest < length xs

Shorter-before :
    (c : ℕ) (xs : List ℕ) (o : Option (List ℕ × List ℕ))
    → Shorter xs o
    → Shorter (c ∷ xs) (before c o)
Shorter-before c xs none h = tt
Shorter-before c xs (some (piece, rest)) h = omega (arith, h)

Shorter-next_frame : (xs : List ℕ) → Shorter xs (next_frame xs)
unfolding next_frame
Shorter-next_frame [] = tt
Shorter-next_frame (c ∷ []) = tt
Shorter-next_frame (c ∷ d ∷ cs) = elim (Bool-cases (eqb c 10 && eqb d 10)) [
  | inl here ↦ rw here (omega arith)
  | inr later ↦
      rw later (Shorter-before c (d ∷ cs) (next_frame (d ∷ cs)) (Shorter-next_frame (d ∷ cs)))
]

Shorter-next_line : (xs : List ℕ) → Shorter xs (next_line xs)
unfolding next_line
Shorter-next_line [] = tt
Shorter-next_line (c ∷ cs) = elim (Bool-cases (eqb c 10)) [
  | inl here ↦ rw here (omega arith)
  | inr later ↦ rw later (Shorter-before c cs (next_line cs) (Shorter-next_line cs))
]

pub next_piece-length :
    (ndjson : Bool) (xs piece rest : List ℕ)
    → next_piece ndjson xs ≡ some (piece, rest)
    → length rest < length xs
next_piece-length true xs piece rest h = subst (Shorter xs) h (Shorter-next_line xs)
next_piece-length false xs piece rest h = subst (Shorter xs) h (Shorter-next_frame xs)

next_piece-append :
    (ndjson : Bool) (xs q piece rest : List ℕ)
    → next_piece ndjson xs ≡ some (piece, rest)
    → next_piece ndjson (xs ++ q) ≡ some (piece, rest ++ q)
next_piece-append true xs q piece rest h = next_line-append xs q piece rest h
next_piece-append false xs q piece rest h = next_frame-append xs q piece rest h

abbrev pub with_buf : List ℕ → StreamAccumulator → StreamAccumulator
with_buf b a = record a { buf = b }

if-with_buf :
    (t : Bool) (b : List ℕ) (x y x' y' : StreamAccumulator)
    → with_buf b x ≡ x'
    → with_buf b y ≡ y'
    → with_buf b (if t then x else y) ≡ (if t then x' else y')
if-with_buf true b x y x' y' e f = e
if-with_buf false b x y x' y' e f = f

append_event-with_buf :
    (a : StreamAccumulator) (b : List ℕ) (ts : ℕ) (event data_ : List ℕ)
    → with_buf b (append_event a ts event data_) ≡ append_event (with_buf b a) ts event data_
unfolding append_event
append_event-with_buf a b ts event data_ =
    if-with_buf (eqb (pos_part a.cap) 0 || not (leb (pos_part a.cap) (length a.events))) b _ _ _ _
      refl refl

pub append_event-keeps :
    (a : StreamAccumulator) (ts : ℕ) (event data_ : List ℕ)
    → ((append_event a ts event data_).buf ≡ a.buf)
      × ((append_event a ts event data_).ndjson ≡ a.ndjson)
      × ((append_event a ts event data_).cap ≡ a.cap)
unfolding append_event
append_event-keeps a ts event data_ = ground arith

abbrev pub Keeps : StreamAccumulator → StreamAccumulator → Type 0
Keeps a b = (b.buf ≡ a.buf) × (b.ndjson ≡ a.ndjson) × (b.cap ≡ a.cap)

if-Keeps :
    (t : Bool) (a x y : StreamAccumulator) → Keeps a x → Keeps a y → Keeps a (if t then x else y)
if-Keeps true a x y h k = h
if-Keeps false a x y h k = k

parse_frame-with_buf :
    (a : StreamAccumulator) (b frame : List ℕ) (ts : ℕ)
    → with_buf b (parse_frame a frame ts) ≡ parse_frame (with_buf b a) frame ts
unfolding parse_frame
parse_frame-with_buf a b frame ts =
    let fields = read_fields (split_lines frame) ([], []) in
    if-with_buf (is_empty fields.0 && is_empty (join_lines fields.1)) b _ _ _ _ refl
      (append_event-with_buf a b ts fields.0 (join_lines fields.1))

parse_frame-Keeps :
    (a : StreamAccumulator) (frame : List ℕ) (ts : ℕ) → Keeps a (parse_frame a frame ts)
unfolding parse_frame
parse_frame-Keeps a frame ts =
    let fields = read_fields (split_lines frame) ([], []) in
    if-Keeps (is_empty fields.0 && is_empty (join_lines fields.1)) a _ _ (refl, refl, refl)
      (append_event-keeps a ts fields.0 (join_lines fields.1))

module _ (trim : List ℕ → List ℕ) where
  record_line-with_buf :
      (a : StreamAccumulator) (b l : List ℕ) (ts : ℕ)
      → with_buf b (record_line trim a l ts) ≡ record_line trim (with_buf b a) l ts
  unfolding record_line
  record_line-with_buf a b l ts =
      if-with_buf (is_empty (trim l)) b _ _ _ _ refl (append_event-with_buf a b ts [] (trim l))

  record_line-Keeps :
      (a : StreamAccumulator) (l : List ℕ) (ts : ℕ) → Keeps a (record_line trim a l ts)
  unfolding record_line
  record_line-Keeps a l ts =
      if-Keeps (is_empty (trim l)) a _ _ (refl, refl, refl) (append_event-keeps a ts [] (trim l))

  record_piece-with_buf :
      (a : StreamAccumulator) (b p : List ℕ) (ts : ℕ)
      → with_buf b (record_piece trim a p ts) ≡ record_piece trim (with_buf b a) p ts
  record_piece-with_buf a b p ts =
      if-with_buf a.ndjson b _ _ _ _ (record_line-with_buf a b p ts) (parse_frame-with_buf a b p ts)

  pub record_piece-Keeps :
      (a : StreamAccumulator) (p : List ℕ) (ts : ℕ) → Keeps a (record_piece trim a p ts)
  record_piece-Keeps a p ts =
      if-Keeps a.ndjson a _ _ (record_line-Keeps a p ts) (parse_frame-Keeps a p ts)

  -- One round.
  pub feed_loop-none :
      (f : ℕ) (a : StreamAccumulator) (ts : ℕ)
      → next_piece a.ndjson a.buf ≡ none
      → feed_loop trim f a ts ≡ a
  unfolding feed_loop
  feed_loop-none zero a ts h = refl
  feed_loop-none (suc f) a ts h = rw (h, feed_loop) refl

  pub feed_loop-some :
      (f : ℕ) (a : StreamAccumulator) (ts : ℕ) (piece rest : List ℕ)
      → next_piece a.ndjson a.buf ≡ some (piece, rest)
      → feed_loop trim (suc f) a ts
        ≡ feed_loop trim f (record_piece trim (with_buf rest a) piece ts) ts
  unfolding feed_loop
  feed_loop-some f a ts piece rest h =
      ap
        (λ o. elim o as (λ _. StreamAccumulator) [
          | none ↦ a
          | some (p, r) ↦ feed_loop trim f (record_piece trim (record a { buf = r }) p ts) ts
        ])
        h

  pub next_piece-empty :
      (a : StreamAccumulator) → length a.buf ≤ 0 → next_piece a.ndjson a.buf ≡ none
  next_piece-empty a h = elim (Option-cases (next_piece a.ndjson a.buf)) [
    | inl e ↦ e
    | inr ((piece, rest), e) ↦
        absurd (omega (arith, h, next_piece-length a.ndjson a.buf piece rest e))
  ]

  rest-length :
      (f : ℕ) (a : StreamAccumulator) (piece rest : List ℕ) (ts : ℕ)
      → next_piece a.ndjson a.buf ≡ some (piece, rest)
      → length a.buf ≤ suc f
      → length (record_piece trim (with_buf rest a) piece ts).buf ≤ f
  rest-length f a piece rest ts e h = omega (
    arith,
    ap length (record_piece-Keeps (with_buf rest a) piece ts).0,
    h,
    next_piece-length a.ndjson a.buf piece rest e,
  )

  -- Fuel that covers the buffer is enough: more changes nothing.
  feed_loop-fuel :
      (f g : ℕ) (a : StreamAccumulator) (ts : ℕ)
      → length a.buf ≤ f
      → length a.buf ≤ g
      → feed_loop trim f a ts ≡ feed_loop trim g a ts
  feed_loop-fuel zero g a ts in_f in_g =
      feed_loop-none zero a ts (next_piece-empty a in_f)
      ∙ sym (feed_loop-none g a ts (next_piece-empty a in_f))
  feed_loop-fuel (suc f) zero a ts in_f in_g =
      feed_loop-none (suc f) a ts (next_piece-empty a in_g)
      ∙ sym (feed_loop-none zero a ts (next_piece-empty a in_g))
  feed_loop-fuel (suc f) (suc g) a ts in_f in_g = elim (Option-cases (next_piece a.ndjson a.buf)) [
    | inl e ↦ feed_loop-none (suc f) a ts e ∙ sym (feed_loop-none (suc g) a ts e)
    | inr ((piece, rest), e) ↦
        feed_loop-some f a ts piece rest e
        ∙ feed_loop-fuel f g (record_piece trim (with_buf rest a) piece ts) ts
            (rest-length f a piece rest ts e in_f) (rest-length g a piece rest ts e in_g)
        ∙ sym (feed_loop-some g a ts piece rest e)
  ]

  -- Where no piece is left, there is nothing to resume.
  append-stuck :
      (f g h : ℕ) (a : StreamAccumulator) (q : List ℕ) (ts : ℕ)
      → feed_loop trim f a ts ≡ a
      → length (feed_loop trim f a ts).buf + length q ≤ g
      → length a.buf + length q ≤ h
      → feed_loop trim g (with_buf ((feed_loop trim f a ts).buf ++ q) (feed_loop trim f a ts)) ts
        ≡ feed_loop trim h (with_buf (a.buf ++ q) a) ts
  append-stuck f g h a q ts e in_g in_h =
      ap (λ b. feed_loop trim g (with_buf (b.buf ++ q) b) ts) e
      ∙ feed_loop-fuel g h (with_buf (a.buf ++ q) a) ts
          (omega (arith, ap (λ b. length b.buf) e, length-append a.buf q, in_g))
          (omega (arith, length-append a.buf q, in_h))

  feed_loop-append :
      (f g h : ℕ) (a : StreamAccumulator) (q : List ℕ) (ts : ℕ)
      → length a.buf ≤ f
      → length (feed_loop trim f a ts).buf + length q ≤ g
      → length a.buf + length q ≤ h
      → feed_loop trim g (with_buf ((feed_loop trim f a ts).buf ++ q) (feed_loop trim f a ts)) ts
        ≡ feed_loop trim h (with_buf (a.buf ++ q) a) ts
  feed_loop-append zero g h a q ts in_f in_g in_h =
      append-stuck zero g h a q ts (feed_loop-none zero a ts (next_piece-empty a in_f)) in_g in_h
  feed_loop-append (suc f) g zero a q ts in_f in_g in_h =
      append-stuck (suc f) g zero a q ts
        (feed_loop-none (suc f) a ts (next_piece-empty a (omega (arith, in_h)))) in_g in_h
  feed_loop-append (suc f) g (suc h) a q ts in_f in_g in_h =
      elim (Option-cases (next_piece a.ndjson a.buf)) [
        | inl e ↦ append-stuck (suc f) g (suc h) a q ts (feed_loop-none (suc f) a ts e) in_g in_h
        | inr ((piece, rest), e) ↦
            let b : StreamAccumulator = record_piece trim (with_buf rest a) piece ts in
            let round : feed_loop trim (suc f) a ts ≡ feed_loop trim f b ts =
              feed_loop-some f a ts piece rest e in
            let shorter : length b.buf ≤ f = rest-length f a piece rest ts e in_f in
            let b_rest : b.buf ≡ rest = (record_piece-Keeps (with_buf rest a) piece ts).0 in
            ap (λ z. feed_loop trim g (with_buf (z.buf ++ q) z) ts) round
            ∙ feed_loop-append f g h b q ts shorter
                (omega (arith, ap (λ z. length z.buf) round, in_g))
                (omega
                  (arith, ap length b_rest, next_piece-length a.ndjson a.buf piece rest e, in_h))
            ∙ ap (λ r. feed_loop trim h (with_buf (r ++ q) b) ts) b_rest
            ∙ ap (λ z. feed_loop trim h z ts)
                (record_piece-with_buf (with_buf rest a) (rest ++ q) piece ts)
            ∙ sym (
                feed_loop-some h (with_buf (a.buf ++ q) a) ts piece (rest ++ q)
                  (next_piece-append a.ndjson a.buf q piece rest e))
      ]

  -- Two chunks that arrive at the same time leave the accumulator as their concatenation does: SSE
  -- frames and NDJSON lines may be cut anywhere.
  pub feed-append :
      (a : StreamAccumulator) (p q : List ℕ) (ts : ℕ)
      → feed trim (feed trim a p ts) q ts ≡ feed trim a (p ++ q) ts
  unfolding feed
  feed-append a p q ts =
      let start : StreamAccumulator = with_buf (a.buf ++ p) a in
      let b : StreamAccumulator = feed_loop trim (length start.buf) start ts in
      feed_loop-append (length start.buf) (length (b.buf ++ q)) (length (start.buf ++ q)) start q ts
        (omega arith) (omega (arith, length-append b.buf q))
        (omega (arith, length-append start.buf q))
      ∙ ap (λ xs. feed_loop trim (length xs) (with_buf xs a) ts) (append_assoc a.buf p q)
