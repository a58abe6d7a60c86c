-- ===== src/Lexer/Program.antt =====
-- All the tokens of a program.
use sage_tree.Base.{
  ℕ, zero, suc, ◌+◌, ◌-◌, ◌*◌, ◌≤◌, ◌<◌, ◌≡◌, ◌≢◌, refl, inl, inr, Bool, true, false, List, [], ◌∷◌,
  Option, none, some, Bytes, length, All, arith, Bool-cases,
}
use sage_tree.Lexer.Token.{Token, TokenType, eof}
use sage_tree.Lexer.State.{LexerState, init_lexer}
use sage_tree.Lexer.Scan.{scan_token}
use sage_tree.Lexer.Moves.{Inside}
use sage_tree.Lexer.Layout.{Stacked, opens, closes, height, IsLexer}
use sage_tree.Lexer.Calls.{scan_token-Scans}

unfoldable pub is_eof : TokenType → Bool
is_eof eof = true
is_eof _ = false

is_eof_iff : (type : TokenType) → (is_eof type ≡ true) → type ≡ eof
unfolding is_eof
is_eof_iff eof h = refl
is_eof_iff _ h = cc

is_eof-eof : is_eof eof ≡ true
unfolding is_eof
is_eof-eof = refl

-- The tokens from a state on, as a caller of `scan_token` gets them until the end of the program.
unfoldable pub scan_all : ℕ → Bytes → LexerState → Option (List Token)
scan_all zero source s = none
scan_all (suc fuel) source s = elim (scan_token source s) [
  | none ↦ none
  | some (s1, t) ↦ elim (is_eof t.type) [
    | true ↦ some (t ∷ [])
    | false ↦ elim (scan_all fuel source s1) [ none ↦ none | some ts ↦ some (t ∷ ts) ]
  ]
]

-- Each token that closes a block follows one that opened it, and none is left open.
abbrev pub Balanced : ℕ → List Token → Type 0
Balanced open_blocks [] = open_blocks ≡ 0
Balanced open_blocks (t ∷ ts) =
    (closes t.type ≤ open_blocks + opens t.type)
    × Balanced (open_blocks + opens t.type - closes t.type) ts

-- The tokens end, lie in the source, and balance.
pub record IsProgram (source : Bytes) (open_blocks : ℕ) (ts : List Token) : Type 0 where
  pub balanced : Balanced open_blocks ts
  pub inside : All (Inside source) ts

height-pos : (l : List ℕ) → Stacked l → 0 < length l
height-pos [] h = absurd h
height-pos (n ∷ l) h = omega arith

eof_blocks : (type : TokenType) → type ≡ eof → (opens type ≡ 0) × (closes type ≡ 0)
unfolding opens closes
eof_blocks type e = rw e (refl, refl)

not_eof : (type : TokenType) → is_eof type ≡ false → type ≢ eof
not_eof type e h = cc (is_eof-eof, e, h)

-- What is left to read, counted twice, and the blocks to close.
abbrev pub weight : Bytes → LexerState → ℕ
weight source s = 2 * (length source - s.current) + height s

module _ (source : Bytes) where
  scan_all-IsProgram :
      (fuel : ℕ) (s : LexerState)
      → IsLexer source s
      → weight source s < fuel
      → (ts : List Token) × (scan_all fuel source s ≡ some ts) × IsProgram source (height s - 1) ts
  unfolding scan_all
  scan_all-IsProgram zero s v enough = absurd (omega (arith, enough))
  scan_all-IsProgram (suc fuel) s v enough =
      let (r, done, q) = scan_token-Scans source s v in
      let t = r.1 in
      let up = height-pos s.indent_stack v.stacked in
      let up' = height-pos r.0.indent_stack q.valid.stacked in
      elim (Bool-cases (is_eof t.type)) [
        | inl e ↦
            let none_more = eof_blocks t.type (is_eof_iff t.type e) in
            let one = q.returns.ended (is_eof_iff t.type e) in
            (
              t ∷ [],
              rw (done, scan_all, e) refl,
              record {
                balanced = (
                  omega (arith, none_more.1),
                  omega (arith, none_more.0, none_more.1, one, q.returns.balance),
                );
                inside = (q.returns.inside, tt);
              },
            )
        | inr e ↦
            let step = q.returns.progress (not_eof t.type e) in
            let (ts, rest, p) =
              scan_all-IsProgram fuel r.0 q.valid
                (omega (arith, enough, step, q.forward, q.valid.within, v.within)) in
            let level : height s - 1 + opens t.type - closes t.type ≡ height r.0 - 1 =
              omega (arith, q.returns.balance, up, up') in
            (
              t ∷ ts,
              rw (done, scan_all, e, rest) refl,
              record {
                balanced = (omega (arith, q.returns.balance, up, up'), rw level p.balanced);
                inside = (q.returns.inside, p.inside);
              },
            )
      ]

pub init_lexer-IsLexer : (source : Bytes) → IsLexer source init_lexer
unfolding init_lexer
init_lexer-IsLexer source = record { within = omega arith; stacked = refl; flat = λ h. refl }

-- From the beginning of any source the calls of `scan_token` reach the end of the program within
-- twice its length and two calls. In the tokens each one that closes a block follows one that
-- opened it, all blocks are closed at the end, and the text of each token lies in the source or is
-- a message of the lexer.
pub scan_all-init_lexer :
    (source : Bytes)
    → (ts : List Token) × (scan_all (2 * length source + 2) source init_lexer ≡ some ts)
      × IsProgram source 0 ts
unfolding init_lexer
scan_all-init_lexer source =
    scan_all-IsProgram source (2 * length source + 2) init_lexer (init_lexer-IsLexer source)
      (omega arith)
