-- ===== src/Net/WebSocket/Stream.antt =====
-- websocket.go: `Parse` on a stream, whole and in pieces.
use live_chat_room.Prelude.{
  ℕ, zero, suc, ◌+◌, ◌≤◌, ◌<◌, ◌≡◌, ◌≢◌, refl, ap, sym, subst, ◌∙◌, true, false, List, [], ◌∷◌,
  ◌++◌, append_assoc, append_nil, arith, if◌then◌else◌, if_cases, if-true, if-false, Bool-cases,
  inl, inr, ltb, length, drop, length-append, length-drop, drop-append_le,
}
use live_chat_room.Net.WebSocket.{
  Parser, Message, FrameResult, failed, need_more, fragment, complete, ParseError, ParseResult,
  messages, error, out_of_fuel, parse_frame, take_frame, parse_loop, parse,
}
use live_chat_room.Net.WebSocket.Loop.{
  Consumes, parse_frame-Consumes, more, Extends, parse_frame-Extends,
}

-- The parser after a frame of `n` bytes.
abbrev pub skip : ℕ → Parser → Parser
skip n p = record p { buffer = drop n p.buffer }

skip-lt :
    (p p' : Parser) (n fuel : ℕ)
    → 2 ≤ n
    → n ≤ length p.buffer
    → p'.buffer ≡ p.buffer
    → length p.buffer < suc fuel
    → length (drop n p'.buffer) < fuel
skip-lt p p' n fuel h k e l = omega (arith, length-drop n p'.buffer, ap length e)

module _ (p : Parser) where
  pub parse_loop_step :
      (fuel : ℕ) (ms : List Message)
      → ltb (length p.buffer) 2 ≡ false
      → parse_loop (suc fuel) p ms ≡ take_frame (parse_loop fuel) p ms (parse_frame p)
  unfolding parse_loop
  parse_loop_step fuel ms h = if-false _ _ h

  pub parse_loop_short :
      (fuel : ℕ) (ms : List Message)
      → ltb (length p.buffer) 2 ≡ true
      → parse_loop (suc fuel) p ms ≡ (p, messages ms)
  unfolding parse_loop
  parse_loop_short fuel ms h = if-true _ _ h

abbrev Ends : Parser × ParseResult → Type 0
Ends out = out.1 ≢ out_of_fuel

-- A turn of two runs of the loop, once the rest of the runs is known to agree.
take_frame-Ends :
    (again : Parser → List Message → Parser × ParseResult) (fuel : ℕ) (p : Parser)
    (ms : List Message) (r : FrameResult)
    → ((q : Parser) (ms : List Message) → length q.buffer < fuel → Ends (again q ms))
    → Consumes p r
    → length p.buffer < suc fuel
    → Ends (take_frame again p ms r)
unfolding take_frame
take_frame-Ends again fuel p ms (failed p' e) ih c h = λ x. cc
take_frame-Ends again fuel p ms need_more ih c h = λ x. cc
take_frame-Ends again fuel p ms (fragment p' n) ih c h =
    ih (skip n p') ms (skip-lt p p' n fuel c.0 c.1 c.2 h)
take_frame-Ends again fuel p ms (complete p' m n) ih c h =
    ih (skip n p') (ms ++ (m ∷ [])) (skip-lt p p' n fuel c.0 c.1 c.2 h)

parse_loop-Ends :
    (fuel : ℕ) (p : Parser) (ms : List Message)
    → length p.buffer < fuel
    → Ends (parse_loop fuel p ms)
unfolding parse_loop
parse_loop-Ends zero p ms h = absurd (omega arith)
parse_loop-Ends (suc fuel) p ms h =
    if_cases Ends (ltb (length p.buffer) 2) (λ _. λ x. cc)
      (λ _.
        take_frame-Ends (parse_loop fuel) fuel p ms (parse_frame p) (parse_loop-Ends fuel)
          (parse_frame-Consumes p) h)

-- Every call of `Parse` ends: the fuel is never used up.
pub parse_ends : (p : Parser) (input : List ℕ) → (parse p input).1 ≢ out_of_fuel
unfolding parse
parse_ends p input =
    parse_loop-Ends (suc (length (p.buffer ++ input))) (more input p) [] (omega arith)

take_frame_fuel :
    (f g : Parser → List Message → Parser × ParseResult) (fuel : ℕ) (p : Parser) (ms : List Message)
    (r : FrameResult)
    → ((q : Parser) (ms : List Message) → length q.buffer < fuel → f q ms ≡ g q ms)
    → Consumes p r
    → length p.buffer < suc fuel
    → take_frame f p ms r ≡ take_frame g p ms r
unfolding take_frame
take_frame_fuel f g fuel p ms (failed p' e) ih c h = refl
take_frame_fuel f g fuel p ms need_more ih c h = refl
take_frame_fuel f g fuel p ms (fragment p' n) ih c h =
    ih (skip n p') ms (skip-lt p p' n fuel c.0 c.1 c.2 h)
take_frame_fuel f g fuel p ms (complete p' m n) ih c h =
    ih (skip n p') (ms ++ (m ∷ [])) (skip-lt p p' n fuel c.0 c.1 c.2 h)

parse_loop_fuel :
    (f g : ℕ) (p : Parser) (ms : List Message)
    → length p.buffer < f
    → f ≤ g
    → parse_loop f p ms ≡ parse_loop g p ms
unfolding parse_loop
parse_loop_fuel zero g p ms h k = absurd (omega arith)
parse_loop_fuel (suc f) zero p ms h k = absurd (omega arith)
parse_loop_fuel (suc f) (suc g) p ms h k =
    ap (λ (x : Parser × ParseResult). if ltb (length p.buffer) 2 then (p, messages ms) else x)
      (take_frame_fuel (parse_loop f) (parse_loop g) f p ms (parse_frame p)
        (λ q ns l. parse_loop_fuel f g q ns l (omega arith)) (parse_frame-Consumes p) h)

pub parse_loop_enough :
    (f g : ℕ) (p : Parser) (ms : List Message)
    → length p.buffer < f
    → length p.buffer < g
    → parse_loop f p ms ≡ parse_loop g p ms
parse_loop_enough f g p ms h k =
    parse_loop_fuel f (f + g) p ms h (omega arith)
    ∙ sym (parse_loop_fuel g (f + g) p ms k (omega arith))

-- Where a run that had no more bytes stands to the run that had `ys` too.
abbrev Resumes : List ℕ → Parser × ParseResult → Parser × ParseResult → Type 0
Resumes ys (p, messages ms) out =
    (g : ℕ) → length (p.buffer ++ ys) < g → out ≡ parse_loop g (more ys p) ms
Resumes ys (p, error e) out = out ≡ (more ys p, error e)
Resumes ys (p, out_of_fuel) out = Unit

module _ (ys : List ℕ) where
  -- The two buffers after a frame of `n` bytes.
  skip-more :
      (p' : Parser) (n m : ℕ)
      → n ≤ m
      → m ≡ length p'.buffer
      → skip n (more ys p') ≡ more ys (skip n p')
  skip-more p' n m h e =
      ap (λ (b : List ℕ). record p' { buffer = b }) (drop-append_le n p'.buffer ys (omega arith))

  take_frame-Resumes :
      (f g : ℕ) (p : Parser) (ms : List Message) (r r' : FrameResult)
      → ((q : Parser) (ns : List Message)
          → length q.buffer < f
          → length (q.buffer ++ ys) < g
          → Resumes ys (parse_loop f q ns) (parse_loop g (more ys q) ns))
      → Consumes p r
      → Extends ys r r'
      → length p.buffer < suc f
      → length (p.buffer ++ ys) < suc g
      → ((h : ℕ)
          → length (p.buffer ++ ys) < h
          → take_frame (parse_loop g) (more ys p) ms r' ≡ parse_loop h (more ys p) ms)
      → Resumes ys (take_frame (parse_loop f) p ms r) (take_frame (parse_loop g) (more ys p) ms r')
  unfolding take_frame
  take_frame-Resumes f g p ms (failed p' e) r' ih c x h k again = rw x refl
  take_frame-Resumes f g p ms need_more r' ih c x h k again = again
  take_frame-Resumes f g p ms (fragment p' n) r' ih c x h k again =
      rw (x, skip-more p' n (length p.buffer) c.1 (ap length (sym c.2)))
        (ih (skip n p') ms (skip-lt p p' n f c.0 c.1 c.2 h) (
          omega (
            arith,
            length-append (drop n p'.buffer) ys,
            length-drop n p'.buffer,
            length-append p.buffer ys,
            ap length c.2,
          )))
  take_frame-Resumes f g p ms (complete p' m n) r' ih c x h k again =
      rw (x, skip-more p' n (length p.buffer) c.1 (ap length (sym c.2)))
        (ih (skip n p') (ms ++ (m ∷ [])) (skip-lt p p' n f c.0 c.1 c.2 h) (
          omega (
            arith,
            length-append (drop n p'.buffer) ys,
            length-drop n p'.buffer,
            length-append p.buffer ys,
            ap length c.2,
          )))

  parse_loop-Resumes :
      (f g : ℕ) (p : Parser) (ms : List Message)
      → length p.buffer < f
      → length (p.buffer ++ ys) < g
      → Resumes ys (parse_loop f p ms) (parse_loop g (more ys p) ms)
  parse_loop-Resumes zero g p ms h k = absurd (omega arith)
  parse_loop-Resumes (suc f) zero p ms h k = absurd (omega arith)
  parse_loop-Resumes (suc f) (suc g) p ms h k = elim (Bool-cases (ltb (length p.buffer) 2)) [
    | inl short ↦
        rw (parse_loop_short p f ms short) (λ u l. parse_loop_enough (suc g) u (more ys p) ms k l)
    | inr long ↦
        let long' : ltb (length (p.buffer ++ ys)) 2 ≡ false =
          ground (arith, length-append p.buffer ys) in
        let again = parse_loop_step (more ys p) g ms long' in
        rw (parse_loop_step p f ms long, again)
          (take_frame-Resumes f g p ms (parse_frame p) (parse_frame (more ys p))
            (parse_loop-Resumes f g) (parse_frame-Consumes p) (parse_frame-Extends ys p) h k
            (λ u l. sym again ∙ parse_loop_enough (suc g) u (more ys p) ms k l))
  ]

-- The messages that a run starts with stand before those that it reads.
abbrev pub join : List Message → ParseResult → ParseResult
join ms (messages ns) = messages (ms ++ ns)
join ms (error e) = error e
join ms out_of_fuel = out_of_fuel

abbrev joined : List Message → Parser × ParseResult → Parser × ParseResult
joined ms out = (out.0, join ms out.1)

take_frame-joined :
    (again : Parser → List Message → Parser × ParseResult) (p : Parser) (ms ns : List Message)
    (r : FrameResult)
    → ((q : Parser) (ns : List Message) → again q (ms ++ ns) ≡ joined ms (again q ns))
    → take_frame again p (ms ++ ns) r ≡ joined ms (take_frame again p ns r)
unfolding take_frame
take_frame-joined again p ms ns (failed p' e) ih = refl
take_frame-joined again p ms ns need_more ih = refl
take_frame-joined again p ms ns (fragment p' n) ih = ih (skip n p') ns
take_frame-joined again p ms ns (complete p' m n) ih =
    rw (append_assoc ms ns (m ∷ [])) (ih (skip n p') (ns ++ (m ∷ [])))

parse_loop-joined :
    (f : ℕ) (p : Parser) (ms ns : List Message)
    → parse_loop f p (ms ++ ns) ≡ joined ms (parse_loop f p ns)
parse_loop-joined zero p ms ns = unfold parse_loop in refl
parse_loop-joined (suc f) p ms ns = elim (Bool-cases (ltb (length p.buffer) 2)) [
  | inl short ↦ rw (parse_loop_short p f (ms ++ ns) short, parse_loop_short p f ns short) refl
  | inr long ↦
      rw (parse_loop_step p f (ms ++ ns) long, parse_loop_step p f ns long)
        (take_frame-joined (parse_loop f) p ms ns (parse_frame p)
          (λ q ns. parse_loop-joined f q ms ns))
]

module _ (p : Parser) (xs ys : List ℕ) {p1 : Parser} where
  -- What `parse` on the whole stream starts from.
  resumed : {r : ParseResult} → parse p xs ≡ (p1, r) → Resumes ys (p1, r) (parse p (xs ++ ys))
  unfolding parse
  resumed e =
      let whole = append_assoc p.buffer xs ys in
      subst (λ (o : Parser × ParseResult). Resumes ys o (parse p (xs ++ ys))) e
        (rw (sym whole) (
          parse_loop-Resumes ys (suc (length (p.buffer ++ xs)))
            (suc (length ((p.buffer ++ xs) ++ ys))) (more xs p) [] (omega arith) (omega arith)))

  -- A stream that is parsed in two pieces, the first without an error, gives what it gives whole: the
  -- messages of the first piece before those of the second, the same error if the second has one,
  -- and the same parser.
  pub parse-append :
      {ms : List Message}
      → parse p xs ≡ (p1, messages ms)
      → parse p (xs ++ ys) ≡ ((parse p1 ys).0, join ms (parse p1 ys).1)
  unfolding parse
  parse-append {ms} e =
      let start =
        ap (λ (l : List Message). parse_loop (suc (length (p1.buffer ++ ys))) (more ys p1) l)
          (sym (append_nil ms)) in
      resumed e (suc (length (p1.buffer ++ ys))) (omega arith)
      ∙ (start ∙ parse_loop-joined (suc (length (p1.buffer ++ ys))) (more ys p1) ms [])

  -- An error in the first piece is the error of the whole stream, whatever follows.
  pub parse-append_error :
      {e : ParseError} → parse p xs ≡ (p1, error e) → parse p (xs ++ ys) ≡ (more ys p1, error e)
  parse-append_error h = resumed h
