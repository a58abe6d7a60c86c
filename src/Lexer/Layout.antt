-- ===== src/Lexer/Layout.antt =====
-- The stack of indents, and what a token does to the blocks that are open.
use sage_tree.Base.{
  ℕ, ◌+◌, ◌*◌, ◌≤◌, ◌<◌, ◌≡◌, ◌≢◌, refl, false, List, [], ◌∷◌, Option, none, some, Bytes, length,
  ltb, arith, Bool-cases, inl, inr,
}
use sage_tree.Lexer.Token.{Token, TokenType, indent, dedent, eof}
use sage_tree.Lexer.State.{LexerState, top_indent}
use sage_tree.Lexer.Scan.{Turn, drop_indents}
use sage_tree.Lexer.Moves.{is_layout, Inside}

-- The indents grow from the base, which is 0.
abbrev pub Stacked : List ℕ → Type 0
Stacked [] = ⊥
Stacked (n ∷ []) = n ≡ 0
Stacked (n ∷ m ∷ below) = (m < n) × Stacked (m ∷ below)

pub push-Stacked : (n : ℕ) (l : List ℕ) → Stacked l → top_indent l < n → Stacked (n ∷ l)
push-Stacked n [] h lt = absurd h
push-Stacked n (m ∷ below) h lt = (lt, h)

-- The indents that `drop_indents` leaves do not pass the new one, and none is lost from the count.
pub record Dropped (spaces : ℕ) (before : List ℕ) (p : List ℕ × ℕ) : Type 0 where
  pub stacked : Stacked p.0
  pub counted : length p.0 + p.1 ≡ length before
  pub low : top_indent p.0 ≤ spaces
  pub some_dropped : spaces < top_indent before → 0 < p.1

pub drop_indents-Dropped :
    (spaces : ℕ) (l : List ℕ) → Stacked l → Dropped spaces l (drop_indents spaces l)
unfolding drop_indents
drop_indents-Dropped spaces [] h = absurd h
drop_indents-Dropped spaces (n ∷ []) h = record {
  stacked = h;
  counted = omega arith;
  low = omega (arith, h);
  some_dropped = λ lt. omega (arith, lt, h);
}
drop_indents-Dropped spaces (n ∷ m ∷ below) h =
    let r = drop_indents-Dropped spaces (m ∷ below) h.1 in
    elim (Bool-cases (ltb spaces n)) [
      | inl e ↦ rw e (record {
        stacked = r.stacked;
        counted = omega (arith, r.counted);
        low = r.low;
        some_dropped = λ lt. omega arith;
      })
      | inr e ↦ rw e (record {
        stacked = h;
        counted = omega arith;
        low = ground (arith, e);
        some_dropped = λ lt. ground (arith, e, lt);
      })
    ]

-- The blocks that a token opens, and that it closes.
unfoldable pub opens : TokenType → ℕ
opens indent = 1
opens _ = 0

unfoldable pub closes : TokenType → ℕ
closes dedent = 1
closes _ = 0

pub plain-type :
    (type : TokenType)
    → is_layout type ≡ false
    → (opens type ≡ 0) × (closes type ≡ 0) × (type ≢ eof)
unfolding opens closes is_layout
plain-type indent h = cc
plain-type dedent h = cc
plain-type eof h = cc
plain-type _ h = (refl, refl, λ e. cc)

-- The indents, the base with them, and the dedents still to be returned.
abbrev pub height : LexerState → ℕ
height s = length s.indent_stack + s.pending_dedents

module _ (source : Bytes) where
  -- A state of the lexer between two calls.
  pub record IsLexer (s : LexerState) : Type 0 where
    pub within : s.current ≤ length source
    pub stacked : Stacked s.indent_stack
    pub flat : 0 < s.pending_dedents → s.bracket_depth ≡ 0

  -- What a call of the lexer at `s` guarantees of the token that it returns and the state `s'`.
  pub record Returns (s s' : LexerState) (t : Token) : Type 0 where
    pub inside : Inside source t
    pub balance : height s' + closes t.type ≡ height s + opens t.type
    pub ended : t.type ≡ eof → height s' ≡ 1
    pub progress : t.type ≢ eof → height s' + 2 * s.current < height s + 2 * s'.current

  -- A turn of the loop that goes on has read a byte and left the layout as it was.
  abbrev pub Answers : LexerState → LexerState → Option Token → Type 0
  Answers s s' none = (s.current < s'.current) × (height s' ≡ height s)
  Answers s s' (some t) = Returns s s' t

  pub record Turned (s : LexerState) (p : Turn) : Type 0 where
    pub valid : IsLexer p.0
    pub forward : s.current ≤ p.0.current
    pub answer : Answers s p.0 p.1
