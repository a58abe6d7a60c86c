-- ===== src/Lexer/Plain.antt =====
-- Brackets and operators only read on.
use sage_tree.Base.{
  ℕ, ◌≤◌, ◌≡◌, ◌≢◌, refl, Bool, true, false, Bytes, length, ◌==◌, if◌then◌else◌, arith,
}
use sage_tree.Lexer.Token.{Token, TokenType}
use sage_tree.Lexer.State.{LexerState, advance, rest, peek, emit}
use sage_tree.Lexer.Symbol.{matched, dots, symbol, open_bracket, close_bracket}
use sage_tree.Lexer.Moves.{
  is_layout, Moves, Plain, stays, then-Moves, advance-Moves, emit-Plain, fail-Plain,
}

module _ (source : Bytes) where
  pub pick :
      (s : LexerState) (test : Bool) (p q : LexerState × Token)
      → (test ≡ true → Plain source s p)
      → Plain source s q
      → Plain source s (if test then p else q)
  pick s true p q hp hq = hp refl
  pick s false p q hp hq = hq

  -- The state is at a place of the source behind the beginning of its token.
  abbrev pub IsPlaced : LexerState → Type 0
  IsPlaced s = (s.start ≤ s.current) × (s.current ≤ length source)

  module _ (s : LexerState) (h : IsPlaced s) where
    pub here : (type : TokenType) → is_layout type ≡ false → Plain source s (emit s type)
    here type plain = emit-Plain source s s (stays source s h.1) h.0 type plain

    matched-Plain :
        (c : ℕ) (hit : TokenType) (other : LexerState × Token)
        → c ≢ 0
        → is_layout hit ≡ false
        → Plain source s other
        → Plain source s (matched source s c hit other)
    unfolding matched
    matched-Plain c hit other nz plain rest =
        pick s (peek source s == c) _ other
          (λ e.
            emit-Plain source s (advance s) (advance-Moves source s (ground (arith, e, nz))) h.0 hit
              plain)
          rest

    opened :
        (type : TokenType) → is_layout type ≡ false → Plain source s (emit (open_bracket s) type)
    opened type plain =
        emit-Plain source s (open_bracket s)
          (record {
            within = h.1;
            forward = omega arith;
            begun = refl;
            stack = refl;
            pending = refl;
          })
          h.0 type plain

    closed :
        (type : TokenType) → is_layout type ≡ false → Plain source s (emit (close_bracket s) type)
    closed type plain =
        emit-Plain source s (close_bracket s)
          (record {
            within = h.1;
            forward = omega arith;
            begun = refl;
            stack = refl;
            pending = refl;
          })
          h.0 type plain

  -- A token that reads on from `s1`, seen from `s`.
  pub after-Plain :
      (s s1 : LexerState) (p : LexerState × Token)
      → Moves source s s1
      → Plain source s1 p
      → Plain source s p
  after-Plain s s1 p m q = record {
    moves = then-Moves source s s1 p.0 m q.moves;
    plain = q.plain;
    inside = q.inside;
  }

  pub moved-IsPlaced : (s s1 : LexerState) → IsPlaced s → Moves source s s1 → IsPlaced s1
  moved-IsPlaced s s1 h m = ground arith

  module _ (s : LexerState) (h : IsPlaced s) where
    dots-Plain : Plain source s (dots source s)
    unfolding dots is_layout
    dots-Plain =
        pick s (peek source s == b'.') _ _
          (λ e.
            let m = advance-Moves source s (ground (arith, e)) in
            let h' = moved-IsPlaced s (advance s) h m in
            after-Plain s (advance s) _ m (
              matched-Plain (advance s) h' b'=' TokenType.dotdoteq _ (omega arith) refl
                (here (advance s) h' TokenType.dotdot refl)))
          (here s h TokenType.dot refl)

    pub symbol-Plain : (c : ℕ) → Plain source s (symbol source c s)
    unfolding symbol is_layout
    symbol-Plain c =
        pick s (c == b'(') _ _ (λ _. (opened s h TokenType.lparen refl))
          (pick s (c == b')') _ _ (λ _. (closed s h TokenType.rparen refl))
            (pick s (c == b'[') _ _ (λ _. (opened s h TokenType.lbracket refl))
              (pick s (c == b']') _ _ (λ _. (closed s h TokenType.rbracket refl))
                (pick s (c == b'{') _ _ (λ _. (opened s h TokenType.lbrace refl))
                  (pick s (c == b'}') _ _ (λ _. (closed s h TokenType.rbrace refl))
                    (pick s (c == b'+') _ _
                      (λ _.
                        (matched-Plain s h b'=' TokenType.plusassign _ (omega arith) refl
                          (here s h TokenType.plus refl)))
                      (pick s (c == b'-') _ _
                        (λ _.
                          (matched-Plain s h b'>' TokenType.arrow _ (omega arith) refl (
                            matched-Plain s h b'=' TokenType.minusassign _ (omega arith) refl
                              (here s h TokenType.minus refl))))
                        (pick s (c == b'*') _ _
                          (λ _.
                            (matched-Plain s h b'=' TokenType.starassign _ (omega arith) refl
                              (here s h TokenType.star refl)))
                          (pick s (c == b'/') _ _
                            (λ _.
                              (matched-Plain s h b'=' TokenType.slashassign _ (omega arith) refl
                                (here s h TokenType.slash refl)))
                            (pick s (c == b'%') _ _ (λ _. (here s h TokenType.percent refl))
                              (pick s (c == b',') _ _ (λ _. (here s h TokenType.comma refl))
                                (pick s (c == b':') _ _ (λ _. (here s h TokenType.colon refl))
                                  (pick s (c == b'.') _ _ (λ _. dots-Plain)
                                    (pick s (c == b'!') _ _
                                      (λ _.
                                        (matched-Plain s h b'=' TokenType.not_equal _ (omega arith)
                                          refl (here s h TokenType.bang refl)))
                                      (pick s (c == b'?') _ _
                                        (λ _.
                                          (matched-Plain s h b'?' TokenType.nullcoal _ (omega arith)
                                            refl
                                            (matched-Plain s h b'.' TokenType.dotquestion _
                                              (omega arith) refl
                                              (here s h TokenType.question refl))))
                                        (pick s (c == b'=') _ _
                                          (λ _.
                                            (matched-Plain s h b'=' TokenType.equal _ (omega arith)
                                              refl
                                              (matched-Plain s h b'>' TokenType.fat_arrow _
                                                (omega arith) refl
                                                (here s h TokenType.assign refl))))
                                          (pick s (c == b'<') _ _
                                            (λ _.
                                              (matched-Plain s h b'<' TokenType.lshift _
                                                (omega arith) refl
                                                (matched-Plain s h b'=' TokenType.less_equal _
                                                  (omega arith) refl
                                                  (here s h TokenType.less refl))))
                                            (pick s (c == b'>') _ _
                                              (λ _.
                                                (matched-Plain s h b'>' TokenType.rshift _
                                                  (omega arith) refl
                                                  (matched-Plain s h b'=' TokenType.greater_equal _
                                                    (omega arith) refl
                                                    (here s h TokenType.greater refl))))
                                              (pick s (c == b'&') _ _
                                                (λ _. (here s h TokenType.amp refl))
                                                (pick s (c == b'|') _ _
                                                  (λ _. (here s h TokenType.pipe refl))
                                                  (pick s (c == b'^') _ _
                                                    (λ _. (here s h TokenType.caret refl))
                                                    (pick s (c == b'~') _ _
                                                      (λ _. (here s h TokenType.tilde refl))
                                                      (pick s (c == b'@') _ _
                                                        (λ _. (here s h TokenType.at_sign refl))
                                                        (fail-Plain source s s (stays source s h.1)
                                                          h.0 _))))))))))))))))))))))))
