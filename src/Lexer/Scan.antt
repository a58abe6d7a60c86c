-- ===== src/Lexer/Scan.antt =====
-- `scan_token` of src/lexer.c. One turn of its outer loop either returns a token or goes on
-- (`continue`), which is `none`.
use sage_tree.Base.{
  ℕ, zero, suc, ◌+◌, ◌-◌, true, false, not, ◌&&◌, ◌||◌, List, [], ◌∷◌, Option, none, some, Bytes,
  bytes, length, ltb, leb, ◌==◌, if◌then◌else◌,
}
use sage_tree.Lexer.Token.{Token, indent, dedent, newline, doc_comment, eof, in_source}
use sage_tree.Lexer.State.{
  LexerState, max_indent_levels, top_indent, isdigit, isalpha, advance, peek, is_at_end, skip,
  begin, make_token, error_token,
}
use sage_tree.Lexer.Literal.{scan_identifier, scan_number, scan_string}
use sage_tree.Lexer.Symbol.{symbol}

abbrev pub Turn : Type 0
Turn = LexerState × Option Token

abbrev pub returned : LexerState × Token → Turn
returned p = (p.0, some p.1)

-- A newline has been read.
abbrev pub new_line : LexerState → LexerState
new_line s = record s { line = s.line + 1; line_start = s.current; at_beginning_of_line = true }

-- `while (indent_stack_top > 0 && indent_stack[indent_stack_top] > spaces)`: the stack after it,
-- and how many indents it dropped.
unfoldable pub drop_indents : ℕ → List ℕ → List ℕ × ℕ
drop_indents spaces [] = ([], 0)
drop_indents spaces (n ∷ []) = (n ∷ [], 0)
drop_indents spaces (n ∷ m ∷ below) =
    let lower = drop_indents spaces (m ∷ below) in
    if ltb spaces n then (lower.0, lower.1 + 1) else (n ∷ m ∷ below, 0)

unfoldable pub dedent_line : ℕ → LexerState → LexerState × Token
dedent_line spaces s =
    let dropped = drop_indents spaces s.indent_stack in
    let s1 = record s {
      indent_stack = dropped.0;
      pending_dedents = s.pending_dedents + dropped.1;
    } in
    let s2 = record s1 { pending_dedents = s1.pending_dedents - 1 } in
    if top_indent s1.indent_stack == spaces
    then (s2, make_token s2 dedent)
    else (s1, error_token s1 (bytes "Indentation error."))

unfoldable pub indent_line : ℕ → LexerState → LexerState × Token
indent_line spaces s =
    let s1 = record s { indent_stack = spaces ∷ s.indent_stack } in
    if leb (max_indent_levels - 1) (length s.indent_stack - 1)
    then (s, error_token s (bytes "Too much nesting."))
    else (s1, make_token s1 indent)

-- The end of the source closes one indent at each call.
unfoldable pub at_end : List ℕ → LexerState → LexerState × Token
at_end [] s = (s, make_token s eof)
at_end (n ∷ []) s = (s, make_token s eof)
at_end (n ∷ m ∷ below) s =
    let s1 = record s { indent_stack = m ∷ below } in (s1, make_token s1 dedent)

module _ (source : Bytes) where
  -- `##`: the token is the text behind the blanks.
  unfoldable pub doc_comment_token : LexerState → LexerState × Token
  doc_comment_token s =
      let s1 = skip source (λ c. c == b' ') (advance s) in
      let s2 = skip source (λ c. not (c == 10) && not (c == 0)) s1 in
      (
        s2,
        record {
          type = doc_comment;
          start = in_source s1.current;
          length = s2.current - s1.current;
          line = s2.line;
          column = s1.current - s2.line_start;
          line_start = s2.line_start;
        },
      )

  -- The character `c` has been read.
  unfoldable pub after_char : ℕ → LexerState → Turn
  after_char c s =
      let s1 = new_line s in
      if c == 10
      then (s1, if ltb 0 s.bracket_depth then none else some (make_token s1 newline))
      else if c == b'#'
      then if peek source s == b'#'
        then returned (doc_comment_token s)
        else (skip source (λ d. not (d == 10) && not (d == 0)) s, none)
      else if c == b'"'
      then returned (scan_string source s)
      else if isalpha c || (c == b'_')
      then returned (scan_identifier source s)
      else if isdigit c
      then returned (scan_number source s)
      else returned (symbol source c s)

  -- The rest of a turn, from the blanks before a token.
  unfoldable pub after_indent : LexerState → Turn
  after_indent s =
      let s1 = begin (skip source (λ c. (c == b' ') || ((c == 13) || (c == 9))) s) in
      if is_at_end source s1
      then returned (at_end s1.indent_stack s1)
      else after_char (peek source s1) (advance s1)

  -- The blanks at the beginning of a line.
  unfoldable pub line_begin : LexerState → Turn
  line_begin s =
      let s1 = begin (record s { at_beginning_of_line = false }) in
      let s2 = skip source (λ c. c == b' ') s1 in
      let spaces = s2.current - s1.current in
      let s3 = advance (begin s2) in
      let current_indent = top_indent s2.indent_stack in
      if peek source s2 == 10
      then (new_line s3, none)
      else if ltb 0 s2.bracket_depth
      then after_indent s2
      else if ltb current_indent spaces
      then returned (indent_line spaces s2)
      else if ltb spaces current_indent
      then returned (dedent_line spaces s2)
      else after_indent s2

  unfoldable pub turn : LexerState → Turn
  turn s =
      let s1 = begin (record s { pending_dedents = s.pending_dedents - 1 }) in
      if ltb 0 s.pending_dedents && (s.bracket_depth == 0)
      then returned (s1, make_token s1 dedent)
      else if s.at_beginning_of_line
      then line_begin s
      else after_indent s

  -- The outer loop; each turn that goes on has read a byte.
  unfoldable pub scan_from : ℕ → LexerState → Option (LexerState × Token)
  scan_from zero s = none
  scan_from (suc fuel) s =
      let s1 = (turn s).0 in elim ((turn s).1) [ some t ↦ some (s1, t) | none ↦ scan_from fuel s1 ]

  unfoldable pub scan_token : LexerState → Option (LexerState × Token)
  scan_token s = scan_from (length source + 1) s
