-- ===== src/Recorder/Capture/Laws.antt =====
-- What is kept of a body depends on its bytes alone, not on the chunks they come in.
use zolem.Base.{
  ℕ, zero, suc, ◌+◌, ◌-◌, ◌≤◌, min, ℤ, pos_part, false, List, [], ◌∷◌, ◌++◌, if◌then◌else◌, leb,
  length, take, length-append, append_assoc, append-[], length-take, ◌≡◌, refl, sym, ◌∙◌, ap, arith,
  Bool-cases, inl, inr,
}
use zolem.Recorder.Capture.{
  RequestCapture, ResponseCapture, new_recording_request_body, new_recording_body, kept, dropped,
  capture, snapshot, capture_body,
}

-- The first bytes up to the cap, all of them without a cap.
abbrev pub limit : ℤ → List ℕ → List ℕ
limit cap xs = if leb (pos_part cap) 0 then xs else take (pos_part cap) xs

abbrev pub concat : List (List ℕ) → List ℕ
concat [] = []
concat (p ∷ ps) = p ++ concat ps

take-append : (n : ℕ) (xs ys : List ℕ) → take n (xs ++ ys) ≡ take n xs ++ take (n - length xs) ys
take-append zero xs ys =
    let none_left : 0 ≡ 0 - length xs = omega arith in ap (λ n. take n ys) none_left
take-append (suc n) [] ys = let whole : suc n ≡ suc n - 0 = omega arith in ap (λ m. take m ys) whole
take-append (suc n) (x ∷ xs) ys =
    let shorter : n - length xs ≡ suc n - suc (length xs) = omega arith in
    ap (λ zs. x ∷ zs) (take-append n xs ys) ∙ ap (λ m. x ∷ (take n xs ++ take m ys)) shorter

take-all : (n : ℕ) (xs : List ℕ) → length xs ≤ n → take n xs ≡ xs
take-all zero [] h = refl
take-all zero (x ∷ xs) h = absurd (omega (arith, h))
take-all (suc n) [] h = refl
take-all (suc n) (x ∷ xs) h = ap (λ zs. x ∷ zs) (take-all n xs (omega (arith, h)))

fill :
    (ys p : List ℕ) (room : ℕ)
    → (if leb room 0 then ys else if leb (length p) room then ys ++ p else ys ++ take room p)
      ≡ ys ++ take room p
fill ys p zero = sym (append-[] ys)
fill ys p (suc n) =
    let open_room : leb (suc n) 0 ≡ false = ground arith in
    elim (Bool-cases (leb (length p) (suc n))) [
      | inl fits ↦
          rw open_room (rw fits (ap (λ zs. ys ++ zs) (sym (take-all (suc n) p (ground arith)))))
      | inr over ↦ rw open_room (rw over refl)
    ]

kept-limit : (cap : ℤ) (xs p : List ℕ) → kept cap (limit cap xs) p ≡ limit cap (xs ++ p)
kept-limit cap xs p = elim (Bool-cases (leb (pos_part cap) 0)) [
  | inl unbounded ↦ rw unbounded refl
  | inr capped ↦ rw capped (
      fill (take (pos_part cap) xs) p (pos_part cap - length (take (pos_part cap) xs))
      ∙ ap (λ n. take (pos_part cap) xs ++ take n p) (omega (arith, length-take (pos_part cap) xs))
      ∙ sym (take-append (pos_part cap) xs p))
]

limit-[] : (cap : ℤ) → limit cap [] ≡ []
limit-[] cap = elim (Bool-cases (leb (pos_part cap) 0)) [
  | inl unbounded ↦ rw unbounded refl
  | inr capped ↦ rw capped (take-all (pos_part cap) [] (omega arith))
]

length-limit :
    (cap : ℤ) (xs : List ℕ)
    → length (limit cap xs)
      ≡ (if leb (pos_part cap) 0 then length xs else min (pos_part cap) (length xs))
length-limit cap xs = elim (Bool-cases (leb (pos_part cap) 0)) [
  | inl unbounded ↦ rw unbounded refl
  | inr capped ↦ rw capped (length-take (pos_part cap) xs)
]

-- The captures after the chunks.
abbrev pub capture_all : RequestCapture → List (List ℕ) → RequestCapture
capture_all b [] = b
capture_all b (p ∷ ps) = capture_all (capture b p) ps

abbrev pub capture_body_all : ResponseCapture → List (List ℕ) → ResponseCapture
capture_body_all b [] = b
capture_body_all b (p ∷ ps) = capture_body_all (capture_body b p) ps

-- The capture of the bytes `xs`.
captured : ℤ → List ℕ → RequestCapture
captured cap xs = record { cap = cap; buf = limit cap xs; total = length xs }

capture-captured : (cap : ℤ) (xs p : List ℕ) → capture (captured cap xs) p ≡ captured cap (xs ++ p)
unfolding capture captured
capture-captured cap xs p =
    ap (λ b. record { cap = cap; buf = b; total = length xs + length p }) (kept-limit cap xs p)
    ∙ ap (λ n. record { cap = cap; buf = limit cap (xs ++ p); total = n })
        (sym (length-append xs p))

snapshot-from :
    (cap : ℤ) (xs : List ℕ) (ps : List (List ℕ))
    → capture_all (captured cap xs) ps ≡ captured cap (xs ++ concat ps)
snapshot-from cap xs [] = ap (captured cap) (sym (append-[] xs))
snapshot-from cap xs (p ∷ ps) =
    ap (λ b. capture_all b ps) (capture-captured cap xs p)
    ∙ snapshot-from cap (xs ++ p) ps
    ∙ ap (captured cap) (append_assoc xs p (concat ps))

-- However a request's body is cut into reads, its record holds the bytes up to the cap, or all of
-- them where the cap is not positive, and counts the rest.
pub snapshot-capture_all :
    (cap : ℤ) (ps : List (List ℕ))
    → snapshot (capture_all (new_recording_request_body cap) ps)
      ≡ (limit cap (concat ps), length (concat ps) - length (limit cap (concat ps)))
unfolding snapshot captured
snapshot-capture_all cap ps =
    ap (λ b. snapshot (capture_all (record { cap = cap; buf = b; total = 0 }) ps))
      (sym (limit-[] cap))
    ∙ ap snapshot (snapshot-from cap [] ps)

abbrev captured_body : ℤ → List ℕ → ResponseCapture
captured_body cap xs = record {
  body_cap_bytes = cap;
  body = limit cap xs;
  body_truncated = length xs - length (limit cap xs);
}

dropped-limit :
    (cap : ℤ) (xs p : List ℕ)
    → (length xs - length (limit cap xs)) + dropped cap (limit cap xs) p
      ≡ length (xs ++ p) - length (limit cap (xs ++ p))
dropped-limit cap xs p =
    ground (arith, length-limit cap xs, length-limit cap (xs ++ p), length-append xs p)

capture_body-captured :
    (cap : ℤ) (xs p : List ℕ) → capture_body (captured_body cap xs) p ≡ captured_body cap (xs ++ p)
unfolding capture_body
capture_body-captured cap xs p =
    ap
      (λ b. record {
        body_cap_bytes = cap;
        body = b;
        body_truncated = length xs - length (limit cap xs) + dropped cap (limit cap xs) p;
      })
      (kept-limit cap xs p)
    ∙ ap (λ n. record { body_cap_bytes = cap; body = limit cap (xs ++ p); body_truncated = n })
        (dropped-limit cap xs p)

body-from :
    (cap : ℤ) (xs : List ℕ) (ps : List (List ℕ))
    → capture_body_all (captured_body cap xs) ps ≡ captured_body cap (xs ++ concat ps)
body-from cap xs [] = ap (captured_body cap) (sym (append-[] xs))
body-from cap xs (p ∷ ps) =
    ap (λ b. capture_body_all b ps) (capture_body-captured cap xs p)
    ∙ body-from cap (xs ++ p) ps
    ∙ ap (captured_body cap) (append_assoc xs p (concat ps))

-- The response's capture, which counts the dropped bytes as they come, records the same of its
-- writes as the request's does, which counts all bytes and subtracts.
pub capture_body_all-snapshot :
    (cap : ℤ) (ps : List (List ℕ))
    → let b = capture_body_all (new_recording_body cap) ps in
      (b.body, b.body_truncated) ≡ snapshot (capture_all (new_recording_request_body cap) ps)
capture_body_all-snapshot cap ps =
    ap
      (λ b.
        let r =
          capture_body_all
            (record { body_cap_bytes = cap; body = b; body_truncated = 0 - length b }) ps in
        (r.body, r.body_truncated))
      (sym (limit-[] cap))
    ∙ ap (λ r. (r.body, r.body_truncated)) (body-from cap [] ps)
    ∙ sym (snapshot-capture_all cap ps)
