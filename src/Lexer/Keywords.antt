-- ===== src/Lexer/Keywords.antt =====
-- `identifier_type` of src/lexer.c returns a keyword for the text of the keyword and for no other
-- word.
use sage_tree.Base.{
  ◌≡◌, ◌≢◌, ◌↔◌, refl, true, ◌||◌, Bytes, bytes, bytes_eq, bytes_eq_iff, ||_iff, inl, inr,
}
use sage_tree.Lexer.Token.{
  TokenType, identifier, if_kw, and_kw, as_kw, async_kw, await_kw, break_kw, case_kw, catch_kw,
  class_kw, comptime_kw, const_kw, continue_kw, default_kw, defer_kw, else_kw, end_kw, enum_kw,
  false_kw, finally_kw, for_kw, from_kw, impl_kw, import_kw, in_kw, init_kw, let_kw, macro_kw,
  match_kw, nil_kw, not_kw, or_kw, print_kw, proc_kw, quote_kw, raise_kw, return_kw, self_kw,
  spawn_kw, struct_kw, super_kw, trait_kw, true_kw, try_kw, unquote_kw, unsafe_kw, var_kw, while_kw,
  yield_kw,
}
use sage_tree.Lexer.Keyword.{identifier_type}
use sage_tree.Lexer.Keyword.Check.{check_keyword}
use sage_tree.Lexer.Keyword.Early.{
  keyword_a, keyword_b, keyword_c, keyword_d, keyword_e, keyword_f, keyword_i,
}
use sage_tree.Lexer.Keyword.Late.{
  keyword_l, keyword_m, keyword_n, keyword_o, keyword_p, keyword_q, keyword_r, keyword_s, keyword_t,
  keyword_u, keyword_v, keyword_w, keyword_y,
}
use sage_tree.Lexer.Spelling.{spelled}
use sage_tree.Lexer.Fits.{is_identifier, identifier_type-Fits}

-- The keyword of one text, from its reading.
from_text :
    (w text : Bytes) (type : TokenType)
    → identifier_type text ≡ type
    → bytes_eq w text ≡ true
    → identifier_type w ≡ type
from_text w text type h e = rw ((bytes_eq_iff w text).0 e) h

from_spelled : (type : TokenType) (w : Bytes) → spelled type w ≡ true → identifier_type w ≡ type
unfolding spelled identifier_type check_keyword keyword_a keyword_b keyword_c keyword_d keyword_e
    keyword_f keyword_i keyword_l keyword_m keyword_n keyword_o keyword_p keyword_q keyword_r
    keyword_s keyword_t keyword_u keyword_v keyword_w keyword_y
from_spelled if_kw w h = elim ((||_iff (bytes_eq w (bytes "if")) (bytes_eq w (bytes "elif"))).0 h) [
  | inl e ↦ from_text w (bytes "if") if_kw refl e
  | inr e ↦ from_text w (bytes "elif") if_kw refl e
]
from_spelled and_kw w h = from_text w (bytes "and") and_kw refl h
from_spelled as_kw w h = from_text w (bytes "as") as_kw refl h
from_spelled async_kw w h = from_text w (bytes "async") async_kw refl h
from_spelled await_kw w h = from_text w (bytes "await") await_kw refl h
from_spelled break_kw w h = from_text w (bytes "break") break_kw refl h
from_spelled case_kw w h = from_text w (bytes "case") case_kw refl h
from_spelled catch_kw w h = from_text w (bytes "catch") catch_kw refl h
from_spelled class_kw w h = from_text w (bytes "class") class_kw refl h
from_spelled comptime_kw w h = from_text w (bytes "comptime") comptime_kw refl h
from_spelled const_kw w h = from_text w (bytes "const") const_kw refl h
from_spelled continue_kw w h = from_text w (bytes "continue") continue_kw refl h
from_spelled default_kw w h = from_text w (bytes "default") default_kw refl h
from_spelled defer_kw w h = from_text w (bytes "defer") defer_kw refl h
from_spelled else_kw w h = from_text w (bytes "else") else_kw refl h
from_spelled end_kw w h = from_text w (bytes "end") end_kw refl h
from_spelled enum_kw w h = from_text w (bytes "enum") enum_kw refl h
from_spelled false_kw w h = from_text w (bytes "false") false_kw refl h
from_spelled finally_kw w h = from_text w (bytes "finally") finally_kw refl h
from_spelled for_kw w h = from_text w (bytes "for") for_kw refl h
from_spelled from_kw w h = from_text w (bytes "from") from_kw refl h
from_spelled impl_kw w h = from_text w (bytes "impl") impl_kw refl h
from_spelled import_kw w h = from_text w (bytes "import") import_kw refl h
from_spelled in_kw w h = from_text w (bytes "in") in_kw refl h
from_spelled init_kw w h = from_text w (bytes "init") init_kw refl h
from_spelled let_kw w h = from_text w (bytes "let") let_kw refl h
from_spelled macro_kw w h = from_text w (bytes "macro") macro_kw refl h
from_spelled match_kw w h = from_text w (bytes "match") match_kw refl h
from_spelled nil_kw w h = from_text w (bytes "nil") nil_kw refl h
from_spelled not_kw w h = from_text w (bytes "not") not_kw refl h
from_spelled or_kw w h = from_text w (bytes "or") or_kw refl h
from_spelled print_kw w h = from_text w (bytes "print") print_kw refl h
from_spelled proc_kw w h = from_text w (bytes "proc") proc_kw refl h
from_spelled quote_kw w h = from_text w (bytes "quote") quote_kw refl h
from_spelled raise_kw w h = from_text w (bytes "raise") raise_kw refl h
from_spelled return_kw w h = from_text w (bytes "return") return_kw refl h
from_spelled self_kw w h = from_text w (bytes "self") self_kw refl h
from_spelled spawn_kw w h = from_text w (bytes "spawn") spawn_kw refl h
from_spelled struct_kw w h = from_text w (bytes "struct") struct_kw refl h
from_spelled super_kw w h = from_text w (bytes "super") super_kw refl h
from_spelled trait_kw w h = from_text w (bytes "trait") trait_kw refl h
from_spelled true_kw w h = from_text w (bytes "true") true_kw refl h
from_spelled try_kw w h = from_text w (bytes "try") try_kw refl h
from_spelled unquote_kw w h = from_text w (bytes "unquote") unquote_kw refl h
from_spelled unsafe_kw w h = from_text w (bytes "unsafe") unsafe_kw refl h
from_spelled var_kw w h = from_text w (bytes "var") var_kw refl h
from_spelled while_kw w h = from_text w (bytes "while") while_kw refl h
from_spelled yield_kw w h = from_text w (bytes "yield") yield_kw refl h
from_spelled _ w h = cc

is_identifier_iff : (type : TokenType) → is_identifier type ≡ true → type ≡ identifier
unfolding is_identifier
is_identifier_iff identifier h = refl
is_identifier_iff _ h = cc

-- `identifier_type` returns a keyword exactly for the text of the keyword, where `elif` is one more
-- text of `if`.
pub identifier_type_iff :
    (w : Bytes) (type : TokenType)
    → type ≢ identifier
    → (identifier_type w ≡ type) ↔ (spelled type w ≡ true)
identifier_type_iff w type h = (
  λ e.
      let fits : (is_identifier type || spelled type w) ≡ true =
        rw (← e) (identifier_type-Fits w) in
      elim ((||_iff (is_identifier type) (spelled type w)).0 fits) [
        | inl k ↦ absurd (h (is_identifier_iff type k))
        | inr k ↦ k
      ],
  from_spelled type w,
)
