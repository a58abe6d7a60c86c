-- ===== src/Lexer/Symbol.antt =====
-- The last switch of `scan_token`: brackets and operators.
use sage_tree.Base.{ℕ, ◌+◌, ◌-◌, Bytes, bytes, ◌==◌, if◌then◌else◌}
use sage_tree.Lexer.Token.{
  Token, TokenType, lparen, rparen, plus, minus, star, slash, percent, assign, equal, not_equal,
  less, greater, less_equal, greater_equal, colon, comma, lbracket, rbracket, lbrace, rbrace, dot,
  arrow, amp, pipe, caret, tilde, lshift, rshift, question, bang, nullcoal, dotdot, dotdoteq,
  dotquestion, plusassign, minusassign, starassign, slashassign, fat_arrow, at_sign,
}
use sage_tree.Lexer.State.{LexerState, advance, peek, emit, fail}

abbrev pub open_bracket : LexerState → LexerState
open_bracket s = record s { bracket_depth = s.bracket_depth + 1 }

-- The depth stops at 0.
abbrev pub close_bracket : LexerState → LexerState
close_bracket s = record s { bracket_depth = s.bracket_depth - 1 }

module _ (source : Bytes) where
  -- `match_char(c) ? hit : other`. Expected characters are not the null byte, so the test for the end
  -- is part of the comparison.
  unfoldable pub matched : LexerState → ℕ → TokenType → LexerState × Token → LexerState × Token
  matched s c hit other = if peek source s == c then emit (advance s) hit else other

  -- `.` has been read: `..`, `..=` or `.`.
  unfoldable pub dots : LexerState → LexerState × Token
  dots s =
      if peek source s == b'.'
      then matched (advance s) b'=' dotdoteq (emit (advance s) dotdot)
      else emit s dot

  unfoldable pub symbol : ℕ → LexerState → LexerState × Token
  symbol c s =
      if c == b'('
      then emit (open_bracket s) lparen
      else if c == b')'
      then emit (close_bracket s) rparen
      else if c == b'['
      then emit (open_bracket s) lbracket
      else if c == b']'
      then emit (close_bracket s) rbracket
      else if c == b'{'
      then emit (open_bracket s) lbrace
      else if c == b'}'
      then emit (close_bracket s) rbrace
      else if c == b'+'
      then matched s b'=' plusassign (emit s plus)
      else if c == b'-'
      then matched s b'>' arrow (matched s b'=' minusassign (emit s minus))
      else if c == b'*'
      then matched s b'=' starassign (emit s star)
      else if c == b'/'
      then matched s b'=' slashassign (emit s slash)
      else if c == b'%'
      then emit s percent
      else if c == b','
      then emit s comma
      else if c == b':'
      then emit s colon
      else if c == b'.'
      then dots s
      else if c == b'!'
      then matched s b'=' not_equal (emit s bang)
      else if c == b'?'
      then matched s b'?' nullcoal (matched s b'.' dotquestion (emit s question))
      else if c == b'='
      then matched s b'=' equal (matched s b'>' fat_arrow (emit s assign))
      else if c == b'<'
      then matched s b'<' lshift (matched s b'=' less_equal (emit s less))
      else if c == b'>'
      then matched s b'>' rshift (matched s b'=' greater_equal (emit s greater))
      else if c == b'&'
      then emit s amp
      else if c == b'|'
      then emit s pipe
      else if c == b'^'
      then emit s caret
      else if c == b'~'
      then emit s tilde
      else if c == b'@'
      then emit s at_sign
      else fail s (bytes "Unexpected character.")
