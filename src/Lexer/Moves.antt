-- ===== src/Lexer/Moves.antt =====
-- How the functions of the lexer move through the source.
use sage_tree.Base.{
  ℕ, zero, suc, ◌+◌, ◌≤◌, ◌<◌, ◌≡◌, ◌≢◌, refl, Bool, true, false, List, [], ◌∷◌, Bytes, length,
  drop, get_or, arith,
}
use sage_tree.Lexer.Token.{Token, TokenType, Text, in_source, in_message, indent, dedent, eof}
use sage_tree.Lexer.State.{LexerState, count_while, advance, peek, skip, emit, fail}

module _ {ℓ} {A : Type ℓ} where
  pub length-drop : (n : ℕ) (xs : List A) → n ≤ length xs → length (drop n xs) + n ≡ length xs
  length-drop zero xs h = omega arith
  length-drop (suc n) [] h = absurd (omega arith)
  length-drop (suc n) (x ∷ xs) h = omega (arith, length-drop n xs (omega arith))

-- A byte that is not the null byte stands before the end.
pub get_or-lt : (xs : Bytes) (i : ℕ) → get_or xs i 0 ≢ 0 → i < length xs
get_or-lt [] i h = absurd (h refl)
get_or-lt (x ∷ xs) zero h = omega arith
get_or-lt (x ∷ xs) (suc i) h = omega (arith, get_or-lt xs i h)

count_while-le : (test : ℕ → Bool) (s : Bytes) → count_while test s ≤ length s
unfolding count_while
count_while-le test [] = omega arith
count_while-le test (c ∷ s) = ground (arith, count_while-le test s)

-- The tokens that open or close a block, or end the program.
unfoldable pub is_layout : TokenType → Bool
is_layout indent = true
is_layout dedent = true
is_layout eof = true
is_layout _ = false

module _ (source : Bytes) where
  -- The text of a token lies in the source, or is the whole message.
  abbrev pub Inside : Token → Type 0
  Inside t = in_text t.start t.length
    where
      in_text : Text → ℕ → Type 0
      in_text (in_source a) n = a + n ≤ length source
      in_text (in_message m) n = n ≡ length m

  -- From `s` the lexer has only read on, to `s'`; the token begins where it did.
  pub record Moves (s s' : LexerState) : Type 0 where
    pub within : s'.current ≤ length source
    pub forward : s.current ≤ s'.current
    pub begun : s'.start ≡ s.start
    pub stack : s'.indent_stack ≡ s.indent_stack
    pub pending : s'.pending_dedents ≡ s.pending_dedents

  -- The lexer has read on and returns a token that is not of the layout.
  pub record Plain (s : LexerState) (p : LexerState × Token) : Type 0 where
    pub moves : Moves s p.0
    pub plain : is_layout p.1.type ≡ false
    pub inside : Inside p.1

  pub stays : (s : LexerState) → s.current ≤ length source → Moves s s
  stays s h = record {
    within = h;
    forward = omega arith;
    begun = refl;
    stack = refl;
    pending = refl;
  }

  pub then-Moves : (s s1 s2 : LexerState) → Moves s s1 → Moves s1 s2 → Moves s s2
  then-Moves s s1 s2 m n = ground arith

  pub advance-Moves : (s : LexerState) → peek source s ≢ 0 → Moves s (advance s)
  advance-Moves s h = record {
    within = omega (arith, get_or-lt source s.current h);
    forward = omega arith;
    begun = refl;
    stack = refl;
    pending = refl;
  }

  pub skip-Moves :
      (test : ℕ → Bool) (s : LexerState) → s.current ≤ length source → Moves s (skip source test s)
  skip-Moves test s h = record {
    within =
        omega (arith, length-drop s.current source h, count_while-le test (drop s.current source));
    forward = omega arith;
    begun = refl;
    stack = refl;
    pending = refl;
  }

  module _ (s s' : LexerState) (m : Moves s s') (b : s.start ≤ s.current) where
    pub emit-Plain : (type : TokenType) → is_layout type ≡ false → Plain s (emit s' type)
    emit-Plain type h = record {
      moves = m;
      plain = h;
      inside = omega (arith, m.forward, m.begun, m.within);
    }

    pub fail-Plain : (message : Bytes) → Plain s (fail s' message)
    unfolding is_layout
    fail-Plain message = record { moves = m; plain = refl; inside = refl }
