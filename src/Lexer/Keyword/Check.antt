-- ===== src/Lexer/Keyword/Check.antt =====
-- `check_keyword` of src/lexer.c. A word is the bytes from `start` to `current`.
use sage_tree.Base.{ℕ, ◌+◌, Bool, ◌&&◌, Bytes, bytes_eq, length, drop, get_or, ◌==◌, if◌then◌else◌}
use sage_tree.Lexer.Token.{TokenType, identifier}

-- `check_keyword`; its length is that of the text.
unfoldable pub check_keyword : Bytes → ℕ → Bytes → TokenType → TokenType
check_keyword w start_index text type =
    if (length w == start_index + length text) && bytes_eq (drop start_index w) text
    then type
    else identifier

-- `start[i] == c`
abbrev pub at : Bytes → ℕ → ℕ → Bool
at w i c = get_or w i 0 == c
