-- ===== src/Lexer/Lines.antt =====
-- What the indent of a new line does: a block is opened, blocks are closed, or an error.
use sage_tree.Base.{
  ℕ, ◌+◌, ◌-◌, ◌≤◌, ◌<◌, ◌≡◌, refl, ◌∙◌, inl, inr, some, Bytes, length, leb, ◌==◌, arith,
  Bool-cases,
}
use sage_tree.Lexer.State.{LexerState, top_indent, max_indent_levels, error_token}
use sage_tree.Lexer.Scan.{returned, drop_indents, dedent_line, indent_line}
use sage_tree.Lexer.Layout.{
  Stacked, push-Stacked, drop_indents-Dropped, opens, closes, height, IsLexer, Turned,
}
use sage_tree.Lexer.Turned.{SameLayout}

module _ (source : Bytes) where
  module _ (s0 : LexerState) (v : IsLexer source s0) (z : s0.pending_dedents ≡ 0) where
    -- An error that leaves the layout as high as it was.
    error-Turned :
        (s : LexerState) (message : Bytes)
        → IsLexer source s
        → s0.current < s.current
        → height s ≡ height s0
        → Turned source s0 (s, some (error_token s message))
    unfolding opens closes
    error-Turned s message valid lt same = record {
      valid = valid;
      forward = omega (arith, lt);
      answer = record {
        inside = refl;
        balance = omega (arith, same);
        ended = λ h. cc h;
        progress = λ h. omega (arith, same, lt);
      };
    }

    pub indent_line-Turned :
        (spaces : ℕ) (s : LexerState)
        → s.current ≤ length source
        → s.start ≤ s.current
        → spaces + s0.current ≤ s.current
        → top_indent s.indent_stack < spaces
        → SameLayout s0 s
        → Turned source s0 (returned (indent_line spaces s))
    unfolding indent_line opens closes
    indent_line-Turned spaces s within b le high k =
        let st : Stacked s.indent_stack = rw k.stack v.stacked in
        let none_pending : s.pending_dedents ≡ 0 = k.pending ∙ z in
        let same : height s ≡ height s0 = rw (k.stack, k.pending) refl in
        elim (Bool-cases (leb (max_indent_levels - 1) (length s.indent_stack - 1))) [
          | inl e ↦ rw e (
              error-Turned s _
                (record {
                  within = within;
                  stacked = st;
                  flat = λ h. absurd (omega (arith, h, none_pending));
                })
                (omega (arith, le, high)) same)
          | inr e ↦ rw e (record {
            valid = record {
              within = within;
              stacked = push-Stacked spaces s.indent_stack st high;
              flat = λ h. absurd (omega (arith, h, none_pending));
            };
            forward = omega (arith, le);
            answer = record {
              inside = omega (arith, within, b);
              balance = omega (arith, same);
              ended = λ h. cc h;
              progress = λ h. omega (arith, same, le, high);
            };
          })
        ]

    pub dedent_line-Turned :
        (spaces : ℕ) (s : LexerState)
        → s.current ≤ length source
        → s.start ≤ s.current
        → spaces + s0.current ≤ s.current
        → spaces < top_indent s.indent_stack
        → s.bracket_depth ≡ 0
        → SameLayout s0 s
        → Turned source s0 (returned (dedent_line spaces s))
    unfolding dedent_line opens closes
    dedent_line-Turned spaces s within b le low flat k =
        let st : Stacked s.indent_stack = rw k.stack v.stacked in
        let d = drop_indents-Dropped spaces s.indent_stack st in
        let dropped = drop_indents spaces s.indent_stack in
        let some_left = d.some_dropped low in
        let same : height s ≡ height s0 = rw (k.stack, k.pending) refl in
        elim (Bool-cases (top_indent dropped.0 == spaces)) [
          | inl e ↦ rw e (record {
            valid = record { within = within; stacked = d.stacked; flat = λ h. flat };
            forward = omega (arith, le);
            answer = record {
              inside = omega (arith, within, b);
              balance = omega (arith, same, d.counted, some_left);
              ended = λ h. cc h;
              progress = λ h. omega (arith, same, d.counted, some_left, le);
            };
          })
          | inr e ↦ rw e (
              error-Turned _ _ (record { within = within; stacked = d.stacked; flat = λ h. flat })
                (ground (arith, e, d.low, le)) (omega (arith, same, d.counted)))
        ]
