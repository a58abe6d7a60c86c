-- ===== src/Lexer/Literal.antt =====
-- `identifier`, `number` and `string` of src/lexer.c.
use sage_tree.Base.{
  ℕ, ◌+◌, ◌-◌, Bool, true, false, ◌&&◌, ◌||◌, [], ◌∷◌, Bytes, bytes, take, drop, get_or, ltb, leb,
  ◌==◌, if◌then◌else◌,
}
use sage_tree.Lexer.Token.{Token, TokenType}
use sage_tree.Lexer.State.{
  LexerState, isdigit, is_word, advance, rest, peek, peek_next, skip, emit, fail,
}
use sage_tree.Lexer.Keyword.{identifier_type}

-- `MAX_IDENTIFIER_LENGTH`
abbrev pub max_identifier_length : ℕ
max_identifier_length = 1024

-- `MAX_STRING_LENGTH`
abbrev pub max_string_length : ℕ
max_string_length = 4096

abbrev pub is_binary_digit : ℕ → Bool
is_binary_digit c = (c == b'0') || (c == b'1')

abbrev pub is_hex_digit : ℕ → Bool
is_hex_digit c =
    (leb b'0' c && leb c b'9') || ((leb b'a' c && leb c b'f') || (leb b'A' c && leb c b'F'))

abbrev pub is_octal_digit : ℕ → Bool
is_octal_digit c = leb b'0' c && leb c b'7'

-- One byte of a string; after a newline a line begins.
abbrev pub string_byte : ℕ → LexerState → LexerState
string_byte c s =
    if c == 10
    then record s { current = s.current + 1; line = s.line + 1; line_start = s.current + 1 }
    else advance s

abbrev pub string_end : LexerState → LexerState × Token
string_end s = fail s (bytes "Unterminated string.")

abbrev pub too_long : ℕ → LexerState → Bool
too_long string_start s = ltb max_string_length (s.current - string_start)

abbrev pub long_string : LexerState → LexerState × Token
long_string s = fail s (bytes "String literal exceeds maximum length (4096).")

module _ (source : Bytes) where
  -- The bytes from `start` to `current`.
  abbrev pub lexeme : LexerState → Bytes
  lexeme s = take (s.current - s.start) (drop s.start source)

  -- The loop of `identifier`, over what is left of the source.
  unfoldable pub identifier_from : Bytes → LexerState → LexerState × Token
  identifier_from [] s = emit s (identifier_type (lexeme s))
  identifier_from (c ∷ left) s = elim (is_word c) [
    | false ↦ emit s (identifier_type (lexeme s))
    | true ↦ elim (ltb max_identifier_length (s.current - s.start)) [
      | true ↦ fail s (bytes "Identifier exceeds maximum length (1024).")
      | false ↦ identifier_from left (advance s)
    ]
  ]

  unfoldable pub scan_identifier : LexerState → LexerState × Token
  scan_identifier s = identifier_from (rest source s) s

  -- A literal after `0b`, `0x` or `0o`: the letter, the digits, and no word right behind them.
  unfoldable pub based : (ℕ → Bool) → Bytes → Bytes → LexerState → LexerState × Token
  based digit none_msg other_msg s =
      let s1 = advance s in
      let s2 = skip source digit s1 in
      if digit (peek source s1)
      then if is_word (peek source s2) then fail s2 other_msg else emit s2 TokenType.number
      else fail s1 none_msg

  -- `.` and digits, where a digit follows the point.
  abbrev pub fraction : LexerState → LexerState
  fraction s =
      if (peek source s == b'.') && isdigit (peek_next source s)
      then skip source isdigit (advance s)
      else s

  abbrev pub sign : LexerState → LexerState
  sign s = if (peek source s == b'+') || (peek source s == b'-') then advance s else s

  unfoldable pub decimal : LexerState → LexerState × Token
  decimal s =
      let s1 = fraction (skip source isdigit s) in
      let s2 = sign (advance s1) in
      if (peek source s1 == b'e') || (peek source s1 == b'E')
      then if isdigit (peek source s2)
        then emit (skip source isdigit s2) TokenType.number
        else fail s2 (bytes "Invalid float literal: expected digit after exponent.")
      else emit s1 TokenType.number

  unfoldable pub scan_number : LexerState → LexerState × Token
  scan_number s =
      let zero_first = get_or source s.start 0 == b'0' in
      let c = peek source s in
      if zero_first && ((c == b'b') || (c == b'B'))
      then based is_binary_digit
          (bytes "Invalid binary literal: expected at least one binary digit after '0b'.")
          (bytes "Invalid binary literal: use only 0 or 1 after '0b'.") s
      else if zero_first && ((c == b'x') || (c == b'X'))
      then based is_hex_digit
          (bytes "Invalid hex literal: expected at least one hex digit after '0x'.")
          (bytes "Invalid hex literal: use only 0-9, a-f after '0x'.") s
      else if zero_first && ((c == b'o') || (c == b'O'))
      then based is_octal_digit
          (bytes "Invalid octal literal: expected at least one octal digit after '0o'.")
          (bytes "Invalid octal literal: use only 0-7 after '0o'.") s
      else decimal s

  -- The loop of `string`, over what is left of the source; `first` is `string_start`.
  unfoldable pub string_from : Bytes → ℕ → LexerState → LexerState × Token
  string_from [] first s = string_end s
  string_from (c ∷ []) first s =
      let s1 = string_byte c s in
      if c == b'"'
      then emit (advance s) TokenType.string
      else if c == 0
      then string_end s
      else if too_long first s1
      then long_string s1
      else string_end s1
  string_from (c ∷ d ∷ left) first s =
      let s1 = string_byte c s in
      let s2 = string_byte d (advance s) in
      let plain = string_from (d ∷ left) first s1 in
      let escaped = string_from left first s2 in
      if c == b'"'
      then emit (advance s) TokenType.string
      else if c == 0
      then string_end s
      else if c == 92
      then if d == 0
        then if too_long first (advance s) then long_string (advance s) else string_end (advance s)
        else if too_long first s2
        then long_string s2
        else escaped
      else if too_long first s1
      then long_string s1
      else plain

  unfoldable pub scan_string : LexerState → LexerState × Token
  scan_string s = string_from (rest source s) s.current s
