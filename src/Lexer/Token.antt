-- ===== src/Lexer/Token.antt =====
-- include/token.h. A keyword's constructor ends in `_kw`.
use sage_tree.Base.{ℕ, Bytes}

-- `TokenType`
pub data TokenType : Type 0 where
  let_kw var_kw proc_kw if_kw else_kw while_kw for_kw return_kw print_kw : TokenType
  and_kw or_kw not_kw in_kw break_kw continue_kw : TokenType
  class_kw self_kw init_kw super_kw : TokenType
  match_kw case_kw default_kw try_kw catch_kw finally_kw raise_kw : TokenType
  defer_kw yield_kw async_kw await_kw spawn_kw : TokenType
  struct_kw enum_kw trait_kw const_kw impl_kw : TokenType
  type_int type_float type_double type_str type_bool type_num type_any type_byte : TokenType
  unsafe_kw end_kw import_kw from_kw as_kw : TokenType
  comptime_kw macro_kw quote_kw unquote_kw at_sign : TokenType
  lparen rparen plus minus star slash percent assign equal not_equal : TokenType
  less greater less_equal greater_equal colon comma lbracket rbracket : TokenType
  lbrace rbrace dot arrow : TokenType
  amp pipe caret tilde lshift rshift : TokenType
  question bang nullcoal dotdot dotdoteq dotquestion : TokenType
  plusassign minusassign starassign slashassign fat_arrow : TokenType
  identifier number string true_kw false_kw nil_kw : TokenType
  indent dedent newline doc_comment eof error : TokenType

-- Where the text of a token stands: in the source, or in a message of the lexer.
pub data Text : Type 0 where
  in_source : ℕ → Text
  in_message : Bytes → Text

-- `Token`
pub record Token : Type 0 where
  pub type : TokenType
  pub start : Text
  pub length : ℕ
  pub line : ℕ
  pub column : ℕ
  pub line_start : ℕ
