-- ===== src/Lexer/Spelling.antt =====
-- The words that `identifier_type` of src/lexer.c takes for keywords.
use sage_tree.Base.{Bool, false, ◌||◌, Bytes, bytes, bytes_eq}
use sage_tree.Lexer.Token.{
  TokenType, if_kw, and_kw, as_kw, async_kw, await_kw, break_kw, case_kw, catch_kw, class_kw,
  comptime_kw, const_kw, continue_kw, default_kw, defer_kw, else_kw, end_kw, enum_kw, false_kw,
  finally_kw, for_kw, from_kw, impl_kw, import_kw, in_kw, init_kw, let_kw, macro_kw, match_kw,
  nil_kw, not_kw, or_kw, print_kw, proc_kw, quote_kw, raise_kw, return_kw, self_kw, spawn_kw,
  struct_kw, super_kw, trait_kw, true_kw, try_kw, unquote_kw, unsafe_kw, var_kw, while_kw, yield_kw,
}

-- The word is the text of the keyword; `elif` is one more text of `if`.
unfoldable pub spelled : TokenType → Bytes → Bool
spelled if_kw w = bytes_eq w (bytes "if") || bytes_eq w (bytes "elif")
spelled and_kw w = bytes_eq w (bytes "and")
spelled as_kw w = bytes_eq w (bytes "as")
spelled async_kw w = bytes_eq w (bytes "async")
spelled await_kw w = bytes_eq w (bytes "await")
spelled break_kw w = bytes_eq w (bytes "break")
spelled case_kw w = bytes_eq w (bytes "case")
spelled catch_kw w = bytes_eq w (bytes "catch")
spelled class_kw w = bytes_eq w (bytes "class")
spelled comptime_kw w = bytes_eq w (bytes "comptime")
spelled const_kw w = bytes_eq w (bytes "const")
spelled continue_kw w = bytes_eq w (bytes "continue")
spelled default_kw w = bytes_eq w (bytes "default")
spelled defer_kw w = bytes_eq w (bytes "defer")
spelled else_kw w = bytes_eq w (bytes "else")
spelled end_kw w = bytes_eq w (bytes "end")
spelled enum_kw w = bytes_eq w (bytes "enum")
spelled false_kw w = bytes_eq w (bytes "false")
spelled finally_kw w = bytes_eq w (bytes "finally")
spelled for_kw w = bytes_eq w (bytes "for")
spelled from_kw w = bytes_eq w (bytes "from")
spelled impl_kw w = bytes_eq w (bytes "impl")
spelled import_kw w = bytes_eq w (bytes "import")
spelled in_kw w = bytes_eq w (bytes "in")
spelled init_kw w = bytes_eq w (bytes "init")
spelled let_kw w = bytes_eq w (bytes "let")
spelled macro_kw w = bytes_eq w (bytes "macro")
spelled match_kw w = bytes_eq w (bytes "match")
spelled nil_kw w = bytes_eq w (bytes "nil")
spelled not_kw w = bytes_eq w (bytes "not")
spelled or_kw w = bytes_eq w (bytes "or")
spelled print_kw w = bytes_eq w (bytes "print")
spelled proc_kw w = bytes_eq w (bytes "proc")
spelled quote_kw w = bytes_eq w (bytes "quote")
spelled raise_kw w = bytes_eq w (bytes "raise")
spelled return_kw w = bytes_eq w (bytes "return")
spelled self_kw w = bytes_eq w (bytes "self")
spelled spawn_kw w = bytes_eq w (bytes "spawn")
spelled struct_kw w = bytes_eq w (bytes "struct")
spelled super_kw w = bytes_eq w (bytes "super")
spelled trait_kw w = bytes_eq w (bytes "trait")
spelled true_kw w = bytes_eq w (bytes "true")
spelled try_kw w = bytes_eq w (bytes "try")
spelled unquote_kw w = bytes_eq w (bytes "unquote")
spelled unsafe_kw w = bytes_eq w (bytes "unsafe")
spelled var_kw w = bytes_eq w (bytes "var")
spelled while_kw w = bytes_eq w (bytes "while")
spelled yield_kw w = bytes_eq w (bytes "yield")
spelled _ w = false
