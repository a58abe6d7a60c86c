-- ===== src/Lexer/Read.antt =====
-- Words, numbers and strings only read on.
use sage_tree.Base.{
  ℕ, zero, suc, ◌+◌, ◌-◌, ◌<◌, ◌≡◌, ◌≢◌, refl, inl, inr, Bool, true, false, ◌&&◌, ◌||◌, [], ◌∷◌,
  Bytes, length, drop, get_or, ltb, ◌==◌, if◌then◌else◌, arith, Bool-cases,
}
use sage_tree.Lexer.Token.{TokenType}
use sage_tree.Lexer.State.{LexerState, isdigit, is_word, advance, rest, peek, peek_next, skip, emit}
use sage_tree.Lexer.Literal.{
  lexeme, identifier_from, scan_identifier, based, fraction, sign, decimal, scan_number,
  is_binary_digit, is_hex_digit, is_octal_digit, string_byte, string_from, scan_string,
  max_identifier_length, too_long,
}
use sage_tree.Lexer.Moves.{
  is_layout, Moves, Plain, stays, then-Moves, advance-Moves, skip-Moves, emit-Plain, fail-Plain,
}
use sage_tree.Lexer.Words.{identifier_type-IsWord}
use sage_tree.Lexer.Plain.{pick, here, after-Plain, IsPlaced, moved-IsPlaced}

drop-cons :
    (n : ℕ) (xs : Bytes) (c : ℕ) (left : Bytes)
    → (c ∷ left) ≡ drop n xs
    → (n < length xs) × (left ≡ drop (n + 1) xs)
drop-cons zero [] c left h = cc
drop-cons (suc n) [] c left h = cc
drop-cons zero (x ∷ xs) c left h = (omega arith, ground (arith, h))
drop-cons (suc n) (x ∷ xs) c left h =
    let (lt, e) = drop-cons n xs c left h in
    let same : suc n + 1 ≡ suc (n + 1) = omega arith in (omega arith, rw same e)

module _ (source : Bytes) where
  identifier_from-Plain :
      (left : Bytes) (s : LexerState)
      → left ≡ rest source s
      → IsPlaced source s
      → Plain source s (identifier_from source left s)
  unfolding identifier_from
  identifier_from-Plain [] s e h = here source s h _ (identifier_type-IsWord (lexeme source s))
  identifier_from-Plain (c ∷ left) s e h =
      let (lt, next) = drop-cons s.current source c left e in
      let m : Moves source s (advance s) = record {
        within = omega (arith, lt);
        forward = omega arith;
        begun = refl;
        stack = refl;
        pending = refl;
      } in
      let rec =
        identifier_from-Plain left (advance s) next (moved-IsPlaced source s (advance s) h m) in
      elim (Bool-cases (is_word c)) [
        | inr e1 ↦
            rw (e1, identifier_from) (here source s h _ (identifier_type-IsWord (lexeme source s)))
        | inl e1 ↦ elim (Bool-cases (ltb max_identifier_length (s.current - s.start))) [
          | inl e2 ↦ rw (e1, identifier_from, e2) (fail-Plain source s s (stays source s h.1) h.0 _)
          | inr e2 ↦ rw (e1, identifier_from, e2) (after-Plain source s (advance s) _ m rec)
        ]
      ]

  -- A function that goes on from a state that the lexer has moved to.
  go_on :
      (s s1 : LexerState) (type : TokenType)
      → IsPlaced source s
      → Moves source s s1
      → is_layout type ≡ false
      → Plain source s (emit s1 type)
  go_on s s1 type h m plain = emit-Plain source s s1 m h.0 type plain

  module _ (s : LexerState) (h : IsPlaced source s) where
    advanced : peek source s ≢ 0 → Moves source s (advance s)
    advanced nz = advance-Moves source s nz

    skipped :
        (test : ℕ → Bool) (s1 : LexerState)
        → Moves source s s1
        → Moves source s (skip source test s1)
    skipped test s1 m = then-Moves source s s1 _ m (skip-Moves source test s1 m.within)

    based-Plain :
        (digit : ℕ → Bool) (none_msg other_msg : Bytes)
        → peek source s ≢ 0
        → Plain source s (based source digit none_msg other_msg s)
    unfolding based is_layout
    based-Plain digit none_msg other_msg nz =
        let m = advanced nz in
        let m2 = skipped digit (advance s) m in
        pick source s (digit (peek source (advance s))) _ _
          (λ _.
            pick source s (is_word (peek source (skip source digit (advance s)))) _ _
              (λ _. fail-Plain source s _ m2 h.0 _) (go_on s _ TokenType.number h m2 refl))
          (fail-Plain source s _ m h.0 _)

    choose-Moves :
        (test : Bool) (a b : LexerState)
        → (test ≡ true → Moves source s a)
        → Moves source s b
        → Moves source s (if test then a else b)
    choose-Moves true a b ha hb = ha refl
    choose-Moves false a b ha hb = hb

    fraction-Moves : (s1 : LexerState) → Moves source s s1 → Moves source s (fraction source s1)
    fraction-Moves s1 m =
        choose-Moves ((peek source s1 == b'.') && isdigit (peek_next source s1)) _ s1
          (λ e.
            skipped isdigit (advance s1)
              (then-Moves source s s1 _ m (advance-Moves source s1 (ground (arith, e)))))
          m

    sign-Moves : (s1 : LexerState) → Moves source s s1 → Moves source s (sign source s1)
    sign-Moves s1 m =
        choose-Moves ((peek source s1 == b'+') || (peek source s1 == b'-')) _ s1
          (λ e. then-Moves source s s1 _ m (advance-Moves source s1 (ground (arith, e)))) m

    decimal-Plain : Plain source s (decimal source s)
    unfolding decimal is_layout
    decimal-Plain =
        let s1 = fraction source (skip source isdigit s) in
        let m1 = fraction-Moves (skip source isdigit s) (skipped isdigit s (stays source s h.1)) in
        pick source s ((peek source s1 == b'e') || (peek source s1 == b'E')) _ _
          (λ e.
            let m2 =
              sign-Moves (advance s1)
                (then-Moves source s s1 _ m1 (advance-Moves source s1 (ground (arith, e)))) in
            pick source s (isdigit (peek source (sign source (advance s1)))) _ _
              (λ _. go_on s _ TokenType.number h (skipped isdigit _ m2) refl)
              (fail-Plain source s _ m2 h.0 _))
          (go_on s s1 TokenType.number h m1 refl)

    pub scan_number-Plain : Plain source s (scan_number source s)
    unfolding scan_number
    scan_number-Plain =
        let zero_first = get_or source s.start 0 == b'0' in
        let c = peek source s in
        pick source s (zero_first && ((c == b'b') || (c == b'B'))) _ _
          (λ e. based-Plain is_binary_digit _ _ (ground (arith, e)))
          (pick source s (zero_first && ((c == b'x') || (c == b'X'))) _ _
            (λ e. based-Plain is_hex_digit _ _ (ground (arith, e)))
            (pick source s (zero_first && ((c == b'o') || (c == b'O'))) _ _
              (λ e. based-Plain is_octal_digit _ _ (ground (arith, e))) decimal-Plain))

    pub scan_identifier-Plain : Plain source s (scan_identifier source s)
    unfolding scan_identifier
    scan_identifier-Plain = identifier_from-Plain (rest source s) s refl h

  string_byte-Moves :
      (c : ℕ) (s : LexerState) → s.current < length source → Moves source s (string_byte c s)
  string_byte-Moves c s lt = ground arith

  step : (s : LexerState) → s.current < length source → Moves source s (advance s)
  step s lt = record {
    within = omega (arith, lt);
    forward = omega arith;
    begun = refl;
    stack = refl;
    pending = refl;
  }

  behind :
      (c : ℕ) (s : LexerState) (left : Bytes)
      → left ≡ drop (s.current + 1) source
      → left ≡ rest source (string_byte c s)
  behind c s left e = ground (arith, e)

  string_from-Plain :
      (left : Bytes) (first : ℕ) (s : LexerState)
      → left ≡ rest source s
      → IsPlaced source s
      → Plain source s (string_from source left first s)
  unfolding string_from is_layout
  string_from-Plain [] first s e h = fail-Plain source s s (stays source s h.1) h.0 _
  string_from-Plain (c ∷ []) first s e h =
      let lt = (drop-cons s.current source c [] e).0 in
      let m = string_byte-Moves c s lt in
      pick source s (c == b'"') _ _
        (λ _. emit-Plain source s (advance s) (step s lt) h.0 TokenType.string refl)
        (pick source s (c == 0) _ _ (λ _. fail-Plain source s s (stays source s h.1) h.0 _)
          (pick source s (too_long first (string_byte c s)) _ _ (λ _. fail-Plain source s _ m h.0 _)
            (fail-Plain source s _ m h.0 _)))
  string_from-Plain (c ∷ d ∷ left) first s e h =
      let (lt, next) = drop-cons s.current source c (d ∷ left) e in
      let (lt', next') = drop-cons (s.current + 1) source d left next in
      let m1 = string_byte-Moves c s lt in
      let m0 = step s lt in
      let m2 = then-Moves source s (advance s) _ m0 (string_byte-Moves d (advance s) lt') in
      let plain =
        string_from-Plain (d ∷ left) first (string_byte c s) (behind c s _ next)
          (moved-IsPlaced source s _ h m1) in
      let escaped =
        string_from-Plain left first (string_byte d (advance s)) (behind d (advance s) _ next')
          (moved-IsPlaced source s _ h m2) in
      pick source s (c == b'"') _ _
        (λ _. emit-Plain source s (advance s) m0 h.0 TokenType.string refl)
        (pick source s (c == 0) _ _ (λ _. fail-Plain source s s (stays source s h.1) h.0 _)
          (pick source s (c == 92) _ _
            (λ _.
              pick source s (d == 0) _ _
                (λ _.
                  pick source s (too_long first (advance s)) _ _
                    (λ _. fail-Plain source s _ m0 h.0 _) (fail-Plain source s _ m0 h.0 _))
                (pick source s (too_long first (string_byte d (advance s))) _ _
                  (λ _. fail-Plain source s _ m2 h.0 _) (after-Plain source s _ _ m2 escaped)))
            (pick source s (too_long first (string_byte c s)) _ _
              (λ _. fail-Plain source s _ m1 h.0 _) (after-Plain source s _ _ m1 plain))))

  pub scan_string-Plain :
      (s : LexerState) → IsPlaced source s → Plain source s (scan_string source s)
  unfolding scan_string
  scan_string-Plain s h = string_from-Plain (rest source s) s.current s refl h
