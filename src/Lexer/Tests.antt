-- ===== src/Lexer/Tests.antt =====
-- Runs of the lexer on a small program, and its theorems at it.
use sage_tree.Base.{
  ◌≢◌, ◌↔◌, true, ◌+◌, ◌*◌, ◌≡◌, refl, List, [], ◌∷◌, ◌++◌, map, Option, none, some, Bytes, bytes,
  length,
}
use sage_tree.Lexer.Token.{
  Token, TokenType, if_kw, identifier, colon, newline, indent, dedent, eof, number, assign, error,
  lparen, rparen,
}
use sage_tree.Lexer.State.{LexerState, init_lexer, count_while}
use sage_tree.Lexer.Keyword.{identifier_type}
use sage_tree.Lexer.Keyword.Check.{check_keyword}
use sage_tree.Lexer.Keyword.Early.{
  keyword_a, keyword_b, keyword_c, keyword_d, keyword_e, keyword_f, keyword_i,
}
use sage_tree.Lexer.Keyword.Late.{
  keyword_l, keyword_m, keyword_n, keyword_o, keyword_p, keyword_q, keyword_r, keyword_s, keyword_t,
  keyword_u, keyword_v, keyword_w, keyword_y,
}
use sage_tree.Lexer.Literal.{
  identifier_from, scan_identifier, based, decimal, scan_number, string_from, scan_string,
}
use sage_tree.Lexer.Symbol.{matched, dots, symbol}
use sage_tree.Lexer.Scan.{
  drop_indents, dedent_line, indent_line, at_end, doc_comment_token, after_char, after_indent,
  line_begin, turn, scan_from, scan_token,
}
use sage_tree.Lexer.Calls.{Scans, scan_token-Scans}
use sage_tree.Lexer.Spelling.{spelled}
use sage_tree.Lexer.Keywords.{identifier_type_iff}
use sage_tree.Lexer.Program.{scan_all, is_eof, IsProgram, scan_all-init_lexer, init_lexer-IsLexer}

run : Unit {0}
unfolding init_lexer count_while identifier_type check_keyword keyword_a keyword_b keyword_c
    keyword_d keyword_e keyword_f keyword_i keyword_l keyword_m keyword_n keyword_o keyword_p
    keyword_q keyword_r keyword_s keyword_t keyword_u keyword_v keyword_w keyword_y identifier_from
    scan_identifier based decimal scan_number string_from scan_string matched dots symbol
    drop_indents dedent_line indent_line at_end doc_comment_token after_char after_indent line_begin
    turn scan_from scan_token scan_all is_eof
run = tt

abbrev types : Option (List Token) → List TokenType
types none = []
types (some ts) = map (λ t. t.type) ts

-- `if x:`, and below it an assignment that is indented.
abbrev block : Bytes
block = bytes "if x:" ++ (10 ∷ (bytes "  y = 0x1f" ++ (10 ∷ [])))

block_tokens :
    types (scan_all 40 block init_lexer)
    ≡ if_kw ∷ identifier ∷ colon ∷ newline ∷ indent ∷ identifier ∷ assign ∷ number ∷ newline
      ∷ dedent ∷ eof ∷ []
unfolding run
block_tokens = refl

-- A line that goes back to no indent that is open.
abbrev crooked : Bytes
crooked = bytes "a" ++ (10 ∷ (bytes "    b" ++ (10 ∷ (bytes "  c" ++ []))))

crooked_tokens :
    types (scan_all 40 crooked init_lexer)
    ≡ identifier ∷ newline ∷ indent ∷ identifier ∷ newline ∷ error ∷ dedent ∷ identifier ∷ eof ∷ []
unfolding run
crooked_tokens = refl

-- A comment at the margin closes the block that it stands in.
abbrev commented : Bytes
commented = bytes "a" ++ (10 ∷ (bytes "  b" ++ (10 ∷ (bytes "# c" ++ (10 ∷ bytes "  d")))))

commented_tokens :
    types (scan_all 40 commented init_lexer)
    ≡ identifier ∷ newline ∷ indent ∷ identifier ∷ newline ∷ dedent ∷ newline ∷ indent ∷ identifier
      ∷ dedent ∷ eof ∷ []
unfolding run
commented_tokens = refl

-- Inside brackets lines and indents do not count.
abbrev bracketed : Bytes
bracketed = bytes "(" ++ (10 ∷ (bytes "  a" ++ (10 ∷ bytes ")")))

bracketed_tokens :
    types (scan_all 40 bracketed init_lexer) ≡ lparen ∷ identifier ∷ rparen ∷ eof ∷ []
unfolding run
bracketed_tokens = refl

open_string : types (scan_all 40 (34 ∷ bytes "ab") init_lexer) ≡ error ∷ eof ∷ []
unfolding run
open_string = refl

scan_all-init_lexer_example :
    (ts : List Token) × (scan_all (2 * length block + 2) block init_lexer ≡ some ts)
    × IsProgram block 0 ts
scan_all-init_lexer_example = scan_all-init_lexer block

scan_token-Scans_example :
    (r : LexerState × Token) × (scan_token block init_lexer ≡ some r) × Scans block init_lexer r
scan_token-Scans_example = scan_token-Scans block init_lexer (init_lexer-IsLexer block)

not_identifier : if_kw ≢ identifier
not_identifier e = cc

identifier_type_iff_example :
    (identifier_type (bytes "elif") ≡ if_kw) ↔ (spelled if_kw (bytes "elif") ≡ true)
identifier_type_iff_example = identifier_type_iff (bytes "elif") if_kw not_identifier
