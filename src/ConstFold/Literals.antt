-- ===== src/ConstFold/Literals.antt =====
-- `fold_literals` replaces an operator by the literal of the value that the interpreter computes.
use sage_tree.Base.{
  ℕ, ◌+◌, ◌≡◌, refl, sym, Bool, true, false, not, ◌&&◌, ◌||◌, [], ◌∷◌, ◌++◌, Option, none, some,
  Bytes, length, ltb, ◌==◌, if◌then◌else◌, inl, inr, Bool-cases, &&_iff, ==_iff,
}
use sage_tree.Lexer.Token.{
  TokenType, and_kw, or_kw, plus, minus, star, slash, percent, equal, not_equal, less, greater,
  less_equal, greater_equal,
}
use sage_tree.Ast.{Expr, number, string, boolean}
use sage_tree.ConstFold.Doubles.{Doubles, isinf, isnan}
use sage_tree.ConstFold.Value.{
  Value, val_bool, val_number, val_string, eval_literal, eval_binary, plus_values, on_numbers,
  star_values, divide, compare_values, values_equal, is_truthy,
}
use sage_tree.ConstFold.Fold.{
  fold_literals, fold_numbers, fold_char, fold_chars, fold_strings, fold_booleans, finite,
  join_strings,
}
use sage_tree.ConstFold.Same.{Computes, operator_of, char_operator, chars_operator}

if-some :
    (b : Bool) {o : Option Expr} {e : Expr}
    → (if b then none else o) ≡ some e
    → (b ≡ false) × (o ≡ some e)
if-some true h = cc
if-some false h = (refl, h)

if_some-then :
    {b : Bool} {o : Option Expr} {e : Expr}
    → (if b then o else none) ≡ some e
    → (b ≡ true) × (o ≡ some e)
if_some-then {b = true} h = (refl, h)
if_some-then {b = false} h = cc

some-injective : {a b : Expr} → some a ≡ some b → a ≡ b
some-injective h = cc

finite-number : (x : ℕ) (e : Expr) → finite x ≡ some e → e ≡ number x
finite-number x e h = sym (some-injective (if-some (isinf x || isnan x) h).1)

module _ (f : Doubles) where
  -- The literal is what the operator computes, if it is an operator.
  abbrev pub Meets : Option TokenType → Value → Value → Expr → Type 0
  Meets o a b e = (type : TokenType) × (o ≡ some type) × Computes f type a b e

  -- Two chains of tests are gone through at once, for operands `a` and `b`.
  module _ (a b : Value) (e : Expr) where
    either :
        (c : Bool) {x y : Option Expr} {t u : Option TokenType}
        → (x ≡ some e → Meets t a b e)
        → (y ≡ some e → Meets u a b e)
        → (if c then x else y) ≡ some e
        → Meets (if c then t else u) a b e
    either true here there h = here h
    either false here there h = there h

    no_operator : {t : Option TokenType} → none ≡ some e → Meets t a b e
    no_operator h = cc

    number-Meets :
        (type : TokenType) (x : ℕ)
        → eval_binary f type a b ≡ some (val_number x)
        → finite x ≡ some e
        → Meets (some type) a b e
    unfolding eval_literal
    number-Meets type x run h = (type, refl, (val_number x, run, rw (finite-number x e h) refl))

    boolean-Meets :
        (type : TokenType) (x : Bool)
        → eval_binary f type a b ≡ some (val_bool x)
        → some (boolean x) ≡ some e
        → Meets (some type) a b e
    unfolding eval_literal
    boolean-Meets type x run h = (type, refl, (val_bool x, run, rw (sym (some-injective h)) refl))

    division-Meets :
        (type : TokenType) (x : ℕ) (is_zero : Bool)
        → (is_zero ≡ false → eval_binary f type a b ≡ some (val_number x))
        → (if is_zero then none else finite x) ≡ some e
        → Meets (some type) a b e
    division-Meets type x true run h = cc
    division-Meets type x false run h = number-Meets type x (run refl) h

  module _ (l r : ℕ) (e : Expr) where
    -- The operands.
    abbrev a : Value
    a = val_number l

    abbrev b : Value
    b = val_number r

    fold_char-Meets : (c : ℕ) → fold_char f c l r ≡ some e → Meets (char_operator c) a b e
    unfolding fold_char eval_binary plus_values on_numbers star_values divide compare_values
    fold_char-Meets c h =
        let by_zero = f.equal r 0 in
        let quotient = division-Meets a b e slash (f.div l r) by_zero (λ k. rw k refl) in
        let remainder = division-Meets a b e percent (f.fmod l r) by_zero (λ k. rw k refl) in
        either a b e (c == b'+') (number-Meets a b e plus (f.add l r) refl)
          (either a b e (c == b'-') (number-Meets a b e minus (f.sub l r) refl) (
            either a b e (c == b'*') (number-Meets a b e star (f.mul l r) refl) (
              either a b e (c == b'/') quotient (
                either a b e (c == b'%') remainder (
                  either a b e (c == b'<') (boolean-Meets a b e less (f.less l r) refl) (
                    either a b e (c == b'>') (boolean-Meets a b e greater (f.less r l) refl)
                      (no_operator a b e)))))))
          h

    fold_chars-Meets : (c d : ℕ) → fold_chars f c d l r ≡ some e → Meets (chars_operator c d) a b e
    unfolding fold_chars eval_binary compare_values values_equal
    fold_chars-Meets c d h =
        either a b e ((c == b'=') && (d == b'=')) (boolean-Meets a b e equal (f.equal l r) refl)
          (either a b e ((c == b'!') && (d == b'='))
            (boolean-Meets a b e not_equal (not (f.equal l r)) refl)
            (either a b e ((c == b'<') && (d == b'='))
              (boolean-Meets a b e less_equal (f.less_equal l r) refl)
              (either a b e ((c == b'>') && (d == b'='))
                (boolean-Meets a b e greater_equal (f.less_equal r l) refl) (no_operator a b e))))
          h

    -- `or` is no operator on numbers.
    not_or : (c d : ℕ) → fold_chars f c d l r ≡ some e → ((c == b'o') && (d == b'r')) ≡ false
    unfolding fold_chars
    not_or c d h = elim (Bool-cases ((c == b'o') && (d == b'r'))) [
      | inl k ↦
          let first = ((&&_iff (c == b'o') (d == b'r')).0 k).0 in
          let c' : c ≡ b'o' = (==_iff c b'o').0 first in
          let unfolded : fold_chars f c d l r ≡ none = rw c' refl in cc
      | inr k ↦ k
    ]

    pub fold_numbers-Meets :
        (op : Bytes) → fold_numbers f op l r ≡ some e → Meets (operator_of op) a b e
    unfolding fold_numbers operator_of
    fold_numbers-Meets [] h = cc
    fold_numbers-Meets (c ∷ []) h = fold_char-Meets c h
    fold_numbers-Meets (c ∷ d ∷ []) h = rw (not_or c d h) (fold_chars-Meets c d h)
    fold_numbers-Meets (c ∷ d ∷ x ∷ op) h = cc

  join_strings-Meets :
      (l r : Bytes) (e : Expr)
      → join_strings l r ≡ some e
      → Meets (some plus) (val_string l) (val_string r) e
  unfolding eval_binary plus_values eval_literal
  join_strings-Meets l r e h =
      let joined = (if-some (ltb 65536 (length l + length r)) h).1 in
      (plus, refl, (val_string (l ++ r), refl, rw (sym (some-injective joined)) refl))

  pub fold_strings-Meets :
      (op l r : Bytes) (e : Expr)
      → fold_strings op l r ≡ some e
      → Meets (operator_of op) (val_string l) (val_string r) e
  unfolding fold_strings operator_of
  fold_strings-Meets [] l r e h = cc
  fold_strings-Meets (c ∷ []) l r e h =
      either (val_string l) (val_string r) e (c == b'+') (join_strings-Meets l r e)
        (no_operator (val_string l) (val_string r) e) h
  fold_strings-Meets (c ∷ d ∷ op) l r e h = cc

  and-truth : (l r : Bool) → (if l then r else false) ≡ (l && r)
  and-truth true r = refl
  and-truth false r = refl

  or-truth : (l r : Bool) → (if l then true else r) ≡ (l || r)
  or-truth true r = refl
  or-truth false r = refl

  pub fold_booleans-Meets :
      (op : Bytes) (l r : Bool) (e : Expr)
      → fold_booleans op l r ≡ some e
      → Meets (operator_of op) (val_bool l) (val_bool r) e
  unfolding fold_booleans operator_of eval_binary is_truthy
  fold_booleans-Meets [] l r e h = cc
  fold_booleans-Meets (c ∷ []) l r e h = cc
  fold_booleans-Meets (c ∷ d ∷ []) l r e h =
      either (val_bool l) (val_bool r) e ((c == b'o') && (d == b'r'))
        (boolean-Meets (val_bool l) (val_bool r) e or_kw (l || r) (rw (or-truth l r) refl))
        (no_operator (val_bool l) (val_bool r) e) h
  fold_booleans-Meets (c ∷ d ∷ x ∷ []) l r e h =
      either (val_bool l) (val_bool r) e ((c == b'a') && ((d == b'n') && (x == b'd')))
        (boolean-Meets (val_bool l) (val_bool r) e and_kw (l && r) (rw (and-truth l r) refl))
        (no_operator (val_bool l) (val_bool r) e) h
  fold_booleans-Meets (c ∷ d ∷ x ∷ y ∷ op) l r e h = cc

  Meets-literal :
      (op : Bytes) (a b : Value) (e : Expr)
      → Meets (operator_of op) a b e
      → (v : Value) × (eval_literal e ≡ some v)
  Meets-literal op a b e (type, is_op, (v, run, is_v)) = (v, is_v)

  -- What replaces an operator is a literal.
  pub fold_literals-literal :
      (op : Bytes) (l r e : Expr)
      → fold_literals f op l r ≡ some e
      → (v : Value) × (eval_literal e ≡ some v)
  unfolding fold_literals
  fold_literals-literal op (number x) (number y) e h =
      Meets-literal op _ _ e (fold_numbers-Meets x y e op h)
  fold_literals-literal op (string x) (string y) e h =
      Meets-literal op _ _ e (fold_strings-Meets op x y e h)
  fold_literals-literal op (boolean x) (boolean y) e h =
      Meets-literal op _ _ e (fold_booleans-Meets op x y e h)
  fold_literals-literal op _ _ e h = cc
