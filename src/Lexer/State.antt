-- ===== src/Lexer/State.antt =====
-- The variables of src/lexer.c as a record, and the functions that read one character.
use sage_tree.Base.{
  ℕ, suc, ◌+◌, ◌-◌, Bool, true, ◌&&◌, ◌||◌, List, [], ◌∷◌, Bytes, length, drop, get_or, leb, ◌==◌,
  if◌then◌else◌,
}
use sage_tree.Lexer.Token.{Token, TokenType, in_source, in_message, error}

-- `LexerState`. The indents are listed from the top of the stack down, so `indent_stack_top` is
-- one less than their number.
pub record LexerState : Type 0 where
  pub start : ℕ
  pub current : ℕ
  pub line : ℕ
  pub token_line : ℕ
  pub at_beginning_of_line : Bool
  pub line_start : ℕ
  pub token_line_start : ℕ
  pub indent_stack : List ℕ
  pub pending_dedents : ℕ
  pub bracket_depth : ℕ

unfoldable pub init_lexer : LexerState
init_lexer = record {
  start = 0;
  current = 0;
  line = 1;
  token_line = 1;
  at_beginning_of_line = true;
  line_start = 0;
  token_line_start = 0;
  indent_stack = 0 ∷ [];
  pending_dedents = 0;
  bracket_depth = 0;
}

-- `MAX_INDENT_LEVELS`
abbrev pub max_indent_levels : ℕ
max_indent_levels = 100

-- `indent_stack[indent_stack_top]`
abbrev pub top_indent : List ℕ → ℕ
top_indent [] = 0
top_indent (n ∷ below) = n

-- The classes of <ctype.h> in the C locale.
abbrev pub isdigit : ℕ → Bool
isdigit c = leb 48 c && leb c 57

abbrev pub isalpha : ℕ → Bool
isalpha c = (leb 65 c && leb c 90) || (leb 97 c && leb c 122)

-- `isalnum(c) || c == '_'`
abbrev pub is_word : ℕ → Bool
is_word c = isalpha c || (isdigit c || (c == 95))

-- How many bytes at the front pass the test of a `while` loop.
unfoldable pub count_while : (ℕ → Bool) → Bytes → ℕ
count_while test [] = 0
count_while test (c ∷ s) = let more = count_while test s in if test c then suc more else 0

abbrev pub advance : LexerState → LexerState
advance s = record s { current = s.current + 1 }

module _ (source : Bytes) where
  -- What is left of the source.
  abbrev pub rest : LexerState → Bytes
  rest s = drop s.current source

  abbrev pub peek : LexerState → ℕ
  peek s = get_or source s.current 0

  abbrev pub is_at_end : LexerState → Bool
  is_at_end s = peek s == 0

  abbrev pub peek_next : LexerState → ℕ
  peek_next s = if is_at_end s then 0 else get_or source (s.current + 1) 0

  -- `while (test(peek())) advance();`
  abbrev pub skip : (ℕ → Bool) → LexerState → LexerState
  skip test s = record s { current = s.current + count_while test (rest s) }

-- `start = current`, with the line of the token.
abbrev pub begin : LexerState → LexerState
begin s = record s { start = s.current; token_line = s.line; token_line_start = s.line_start }

abbrev pub make_token : LexerState → TokenType → Token
make_token s type = record {
  type = type;
  start = in_source s.start;
  length = s.current - s.start;
  line = s.token_line;
  column = s.start - s.token_line_start;
  line_start = s.token_line_start;
}

abbrev pub error_token : LexerState → Bytes → Token
error_token s message = record {
  type = error;
  start = in_message message;
  length = length message;
  line = s.token_line;
  column = s.start - s.token_line_start;
  line_start = s.token_line_start;
}

-- The state and the token that a function of the lexer returns.
abbrev pub emit : LexerState → TokenType → LexerState × Token
emit s type = (s, make_token s type)

abbrev pub fail : LexerState → Bytes → LexerState × Token
fail s message = (s, error_token s message)

-- The parser saves the variables of the lexer to look ahead, and restores them.
unfoldable pub lexer_get_state : LexerState → LexerState × LexerState
lexer_get_state s = (s, s)

unfoldable pub lexer_set_state : LexerState → LexerState → LexerState
lexer_set_state saved s = saved
