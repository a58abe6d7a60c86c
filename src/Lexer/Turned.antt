-- ===== src/Lexer/Turned.antt =====
-- A turn of the loop of `scan_token` from the blanks before a token on.
use sage_tree.Base.{
  ℕ, ◌≤◌, ◌<◌, ◌≡◌, ◌≢◌, refl, sym, ap, ◌∙◌, inl, inr, Bool, true, false, not, ◌&&◌, ◌||◌, List, [],
  ◌∷◌, none, Bytes, length, ltb, ◌==◌, if◌then◌else◌, arith, Bool-cases,
}
use sage_tree.Lexer.Token.{Token, newline}
use sage_tree.Lexer.State.{LexerState, isdigit, isalpha, advance, peek, skip, begin, make_token}
use sage_tree.Lexer.Scan.{
  Turn, returned, new_line, at_end, doc_comment_token, after_char, after_indent,
}
use sage_tree.Lexer.Moves.{is_layout, Plain, stays, then-Moves, advance-Moves, skip-Moves}
use sage_tree.Lexer.Plain.{IsPlaced, symbol-Plain}
use sage_tree.Lexer.Read.{scan_identifier-Plain, scan_number-Plain, scan_string-Plain}
use sage_tree.Lexer.Layout.{Stacked, opens, closes, plain-type, height, IsLexer, Turned}

-- The layout of the state at which a turn began, in a state that has read on.
pub record SameLayout (s0 s : LexerState) : Type 0 where
  pub stack : s.indent_stack ≡ s0.indent_stack
  pub pending : s.pending_dedents ≡ s0.pending_dedents

module _ (source : Bytes) where
  pub pick :
      (s : LexerState) (test : Bool) (p q : Turn)
      → (test ≡ true → Turned source s p)
      → (test ≡ false → Turned source s q)
      → Turned source s (if test then p else q)
  pick s true p q hp hq = hp refl
  pick s false p q hp hq = hq refl

  doc_comment_token-Plain :
      (s : LexerState)
      → IsPlaced source s
      → peek source s ≢ 0
      → Plain source s (doc_comment_token source s)
  unfolding doc_comment_token is_layout
  doc_comment_token-Plain s h nz =
      let m = advance-Moves source s nz in
      let m1 =
        then-Moves source s (advance s) _ m
          (skip-Moves source (λ c. c == b' ') (advance s) m.within) in
      let s1 = skip source (λ c. c == b' ') (advance s) in
      let m2 = skip-Moves source (λ c. not (c == 10) && not (c == 0)) s1 m1.within in
      record {
        moves = then-Moves source s s1 _ m1 m2;
        plain = refl;
        inside = omega (arith, m2.within, m2.forward);
      }

  module _ (s0 : LexerState) (v : IsLexer source s0) (z : s0.pending_dedents ≡ 0) where
    read_on :
        (s : LexerState) (p : LexerState × Token)
        → Plain source s p
        → s0.current < s.current
        → SameLayout s0 s
        → Turned source s0 (returned p)
    read_on s p q lt l =
        let kind = plain-type p.1.type q.plain in
        let same : height p.0 ≡ height s0 =
          rw (q.moves.stack, q.moves.pending, l.stack, l.pending) refl in
        record {
          valid = record {
            within = q.moves.within;
            stacked = rw (q.moves.stack, l.stack) v.stacked;
            flat = λ h. absurd (omega (arith, h, q.moves.pending, l.pending, z));
          };
          forward = omega (arith, q.moves.forward, lt);
          answer = record {
            inside = q.inside;
            balance = omega (arith, same, kind.0, kind.1);
            ended = λ e. absurd (kind.2 e);
            progress = λ e. omega (arith, same, q.moves.forward, lt);
          };
        }

    -- A turn that goes on.
    pub goes_on :
        (s : LexerState)
        → s.current ≤ length source
        → s0.current < s.current
        → SameLayout s0 s
        → Turned source s0 (s, none)
    goes_on s within lt l = record {
      valid = record {
        within = within;
        stacked = rw l.stack v.stacked;
        flat = λ h. absurd (omega (arith, h, l.pending, z));
      };
      forward = omega (arith, lt);
      answer = (lt, rw (l.stack, l.pending) refl);
    }

    newline-Plain :
        (s : LexerState)
        → IsPlaced source s
        → Plain source (new_line s) (new_line s, make_token (new_line s) newline)
    unfolding is_layout
    newline-Plain s h = record {
      moves = stays source (new_line s) h.1;
      plain = refl;
      inside = omega (arith, h.0, h.1);
    }

    after_char-Turned :
        (c : ℕ) (s : LexerState)
        → IsPlaced source s
        → s0.current < s.current
        → SameLayout s0 s
        → Turned source s0 (after_char source c s)
    unfolding after_char
    after_char-Turned c s h lt l =
        pick s0 (c == 10) _ _
          (λ _. elim (Bool-cases (ltb 0 s.bracket_depth)) [
            | inl e ↦
                rw e (goes_on (new_line s) h.1 lt (record { stack = l.stack; pending = l.pending }))
            | inr e ↦ rw e (
                read_on (new_line s) _ (newline-Plain s h) lt
                  (record { stack = l.stack; pending = l.pending }))
          ])
          (λ _.
            pick s0 (c == b'#') _ _
              (λ _.
                pick s0 (peek source s == b'#') _ _
                  (λ e. read_on s _ (doc_comment_token-Plain s h (ground (arith, e))) lt l)
                  (λ _.
                    let m = skip-Moves source (λ d. not (d == 10) && not (d == 0)) s h.1 in
                    goes_on _ m.within (omega (arith, lt, m.forward))
                      (record { stack = l.stack; pending = l.pending })))
              (λ _.
                pick s0 (c == b'"') _ _ (λ _. read_on s _ (scan_string-Plain source s h) lt l)
                  (λ _.
                    pick s0 (isalpha c || (c == b'_')) _ _
                      (λ _. read_on s _ (scan_identifier-Plain source s h) lt l)
                      (λ _.
                        pick s0 (isdigit c) _ _
                          (λ _. read_on s _ (scan_number-Plain source s h) lt l)
                          (λ _. read_on s _ (symbol-Plain source s h c) lt l)))))

    -- The end of the source: a block is closed, or the program ends.
    at_end-Turned :
        (l : List ℕ) (s : LexerState)
        → s.indent_stack ≡ l
        → s.current ≤ length source
        → s.start ≤ s.current
        → s0.current ≤ s.current
        → SameLayout s0 s
        → Turned source s0 (returned (at_end l s))
    unfolding at_end opens closes
    at_end-Turned [] s e within b le k =
        let q : s0.indent_stack ≡ [] = sym k.stack ∙ e in absurd (rw q at v.stacked)
    at_end-Turned (n ∷ []) s e within b le k = record {
      valid = record {
        within = within;
        stacked = rw k.stack v.stacked;
        flat = λ h. absurd (omega (arith, h, k.pending, z));
      };
      forward = le;
      answer = record {
        inside = omega (arith, within, b);
        balance = rw (k.stack, k.pending) refl;
        ended = λ _. omega (arith, ap length e, k.pending, z);
        progress = λ h. absurd (h refl);
      };
    }
    at_end-Turned (n ∷ m ∷ below) s e within b le k =
        let q : s0.indent_stack ≡ n ∷ m ∷ below = sym k.stack ∙ e in
        let st : Stacked (n ∷ m ∷ below) = rw q at v.stacked in
        record {
          valid = record {
            within = within;
            stacked = st.1;
            flat = λ h. absurd (omega (arith, h, k.pending, z));
          };
          forward = le;
          answer = record {
            inside = omega (arith, within, b);
            balance = omega (arith, ap length q, k.pending);
            ended = λ h. cc h;
            progress = λ h. omega (arith, ap length q, k.pending, le);
          };
        }

    pub after_indent-Turned :
        (s : LexerState)
        → s.current ≤ length source
        → s0.current ≤ s.current
        → SameLayout s0 s
        → Turned source s0 (after_indent source s)
    unfolding after_indent
    after_indent-Turned s within le k =
        let m = skip-Moves source (λ c. (c == b' ') || ((c == 13) || (c == 9))) s within in
        let s1 = begin (skip source (λ c. (c == b' ') || ((c == 13) || (c == 9))) s) in
        pick s0 (peek source s1 == 0) _ _
          (λ _.
            at_end-Turned s1.indent_stack s1 refl m.within (omega arith)
              (omega (arith, le, m.forward)) (record { stack = k.stack; pending = k.pending }))
          (λ e.
            let lt = (advance-Moves source s1 (ground (arith, e))).within in
            after_char-Turned (peek source s1) (advance s1) (omega arith, lt)
              (omega (arith, le, m.forward)) (record { stack = k.stack; pending = k.pending }))
