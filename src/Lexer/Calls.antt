-- ===== src/Lexer/Calls.antt =====
-- `scan_token`: each call ends, and what it returns.
use sage_tree.Base.{
  ℕ, zero, suc, ◌+◌, ◌-◌, ◌≤◌, ◌<◌, ◌≡◌, refl, inl, inr, false, ◌&&◌, Option, none, some, Bytes,
  length, ltb, ◌==◌, arith, Bool-cases,
}
use sage_tree.Lexer.Token.{Token}
use sage_tree.Lexer.State.{LexerState, top_indent, advance, peek, skip, begin}
use sage_tree.Lexer.Scan.{new_line, line_begin, turn, scan_from, scan_token}
use sage_tree.Lexer.Moves.{advance-Moves, skip-Moves}
use sage_tree.Lexer.Layout.{opens, closes, height, IsLexer, Returns, Answers, Turned}
use sage_tree.Lexer.Turned.{pick, SameLayout, goes_on, after_indent-Turned}
use sage_tree.Lexer.Lines.{indent_line-Turned, dedent_line-Turned}

module _ (source : Bytes) where
  line_begin-Turned :
      (s : LexerState)
      → IsLexer source s
      → s.pending_dedents ≡ 0
      → Turned source s (line_begin source s)
  unfolding line_begin
  line_begin-Turned s v z =
      let s1 = begin (record s { at_beginning_of_line = false }) in
      let s2 = skip source (λ c. c == b' ') s1 in
      let m = skip-Moves source (λ c. c == b' ') s1 v.within in
      let spaces = s2.current - s1.current in
      let k : SameLayout s s2 = record { stack = refl; pending = refl } in
      pick source s (peek source s2 == 10) _ _
        (λ e.
          let lt = (advance-Moves source s2 (ground (arith, e))).within in
          goes_on source s v z (new_line (advance (begin s2))) lt (omega (arith, m.forward))
            (record { stack = refl; pending = refl }))
        (λ _.
          pick source s (ltb 0 s2.bracket_depth) _ _
            (λ _. after_indent-Turned source s v z s2 m.within m.forward k)
            (λ flat.
              pick source s (ltb (top_indent s2.indent_stack) spaces) _ _
                (λ e.
                  indent_line-Turned source s v z spaces s2 m.within m.forward
                    (omega (arith, m.forward)) (ground (arith, e)) k)
                (λ _.
                  pick source s (ltb spaces (top_indent s2.indent_stack)) _ _
                    (λ e.
                      dedent_line-Turned source s v z spaces s2 m.within m.forward
                        (omega (arith, m.forward)) (ground (arith, e)) (ground (arith, flat)) k)
                    (λ _. after_indent-Turned source s v z s2 m.within m.forward k))))

  no_pending :
      (s : LexerState)
      → IsLexer source s
      → (ltb 0 s.pending_dedents && (s.bracket_depth == 0)) ≡ false
      → s.pending_dedents ≡ 0
  no_pending s v e = elim (Bool-cases (ltb 0 s.pending_dedents)) [
    | inl some_left ↦ absurd (ground (arith, e, some_left, v.flat (ground (arith, some_left))))
    | inr none_left ↦ ground (arith, none_left)
  ]

  turn-Turned : (s : LexerState) → IsLexer source s → Turned source s (turn source s)
  unfolding turn opens closes
  turn-Turned s v =
      pick source s (ltb 0 s.pending_dedents && (s.bracket_depth == 0)) _ _
        (λ e. record {
          valid = record { within = v.within; stacked = v.stacked; flat = λ h. ground (arith, e) };
          forward = omega arith;
          answer = record {
            inside = omega (arith, v.within);
            balance = ground (arith, e);
            ended = λ h. cc h;
            progress = λ h. ground (arith, e);
          };
        })
        (λ e.
          let z = no_pending s v e in
          pick source s s.at_beginning_of_line _ _ (λ _. line_begin-Turned s v z)
            (λ _.
              after_indent-Turned source s v z s v.within (omega arith)
                (record { stack = refl; pending = refl })))

  -- A call that ends with a token, in order.
  pub record Scans (s : LexerState) (r : LexerState × Token) : Type 0 where
    pub valid : IsLexer source r.0
    pub forward : s.current ≤ r.0.current
    pub returns : Returns source s r.0 r.1

  -- A call from behind a turn that went on.
  later :
      (s s1 : LexerState) (r : LexerState × Token)
      → s.current < s1.current
      → height s1 ≡ height s
      → Scans s1 r
      → Scans s r
  later s s1 r lt same q = record {
    valid = q.valid;
    forward = omega (arith, lt, q.forward);
    returns = record {
      inside = q.returns.inside;
      balance = omega (arith, same, q.returns.balance);
      ended = q.returns.ended;
      progress = λ h. omega (arith, same, lt, q.returns.progress h);
    };
  }

  by_answer :
      (fuel : ℕ) (s : LexerState) (o : Option Token)
      → (turn source s).1 ≡ o
      → IsLexer source (turn source s).0
      → s.current ≤ (turn source s).0.current
      → Answers source s (turn source s).0 o
      → (s.current < (turn source s).0.current
          → (r : LexerState × Token) × (scan_from source fuel (turn source s).0 ≡ some r)
            × Scans (turn source s).0 r)
      → (r : LexerState × Token) × (scan_from source (suc fuel) s ≡ some r) × Scans s r
  unfolding scan_from
  by_answer fuel s none e v fwd a again =
      let (r, done, q) = again a.0 in
      (r, rw (e, scan_from) done, later s (turn source s).0 r a.0 a.1 q)
  by_answer fuel s (some t) e v fwd a again = (
    ((turn source s).0, t),
    rw (e, scan_from) refl,
    record { valid = v; forward = fwd; returns = a },
  )

  scan_from-Scans :
      (fuel : ℕ) (s : LexerState)
      → IsLexer source s
      → length source < fuel + s.current
      → (r : LexerState × Token) × (scan_from source fuel s ≡ some r) × Scans s r
  scan_from-Scans zero s v enough = absurd (omega (arith, enough, v.within))
  scan_from-Scans (suc fuel) s v enough =
      let q = turn-Turned s v in
      by_answer fuel s (turn source s).1 refl q.valid q.forward q.answer
        (λ lt. scan_from-Scans fuel (turn source s).0 q.valid (omega (arith, enough, lt)))

  -- A call of `scan_token` at a state in order ends. Its state is in order; the text of its token
  -- lies in the source or is the message; the blocks that are open change by the token alone; the
  -- end of the program comes when no block is open; and every other token reads on or closes a
  -- block.
  pub scan_token-Scans :
      (s : LexerState)
      → IsLexer source s
      → (r : LexerState × Token) × (scan_token source s ≡ some r) × Scans s r
  unfolding scan_token
  scan_token-Scans s v = scan_from-Scans (length source + 1) s v (omega arith)
