-- ===== src/Lexer/Keyword/Late.antt =====
-- The cases of `identifier_type` of src/lexer.c for the first letters l to y, a function for each.
use sage_tree.Base.{◌&&◌, Bytes, bytes, length, ltb, if◌then◌else◌}
use sage_tree.Lexer.Token.{
  TokenType, identifier, let_kw, macro_kw, match_kw, nil_kw, not_kw, or_kw, print_kw, proc_kw,
  quote_kw, raise_kw, return_kw, self_kw, spawn_kw, struct_kw, super_kw, trait_kw, true_kw, try_kw,
  unquote_kw, unsafe_kw, var_kw, while_kw, yield_kw,
}
use sage_tree.Lexer.Keyword.Check.{check_keyword, at}

unfoldable pub keyword_l : Bytes → TokenType
keyword_l w = check_keyword w 1 (bytes "et") let_kw

unfoldable pub keyword_m : Bytes → TokenType
keyword_m w =
    if ltb 1 (length w)
    then (if at w 1 b'a'
        then (if ltb 2 (length w) && at w 2 b't'
            then check_keyword w 2 (bytes "tch") match_kw
            else if ltb 2 (length w) && at w 2 b'c'
            then check_keyword w 2 (bytes "cro") macro_kw
            else identifier)
        else identifier)
    else identifier

unfoldable pub keyword_n : Bytes → TokenType
keyword_n w =
    if ltb 1 (length w)
    then (if at w 1 b'i'
        then check_keyword w 2 (bytes "l") nil_kw
        else if at w 1 b'o'
        then check_keyword w 2 (bytes "t") not_kw
        else identifier)
    else identifier

unfoldable pub keyword_o : Bytes → TokenType
keyword_o w = check_keyword w 1 (bytes "r") or_kw

unfoldable pub keyword_p : Bytes → TokenType
keyword_p w =
    if ltb 1 (length w)
    then (if at w 1 b'r'
        then (if ltb 2 (length w) && at w 2 b'i'
            then check_keyword w 3 (bytes "nt") print_kw
            else if ltb 2 (length w) && at w 2 b'o'
            then check_keyword w 3 (bytes "c") proc_kw
            else identifier)
        else identifier)
    else identifier

unfoldable pub keyword_q : Bytes → TokenType
keyword_q w = check_keyword w 1 (bytes "uote") quote_kw

unfoldable pub keyword_r : Bytes → TokenType
keyword_r w =
    if ltb 1 (length w)
    then (if at w 1 b'a'
        then check_keyword w 2 (bytes "ise") raise_kw
        else if at w 1 b'e'
        then check_keyword w 2 (bytes "turn") return_kw
        else identifier)
    else identifier

unfoldable pub keyword_s : Bytes → TokenType
keyword_s w =
    if ltb 1 (length w)
    then (if at w 1 b'e'
        then check_keyword w 2 (bytes "lf") self_kw
        else if at w 1 b'u'
        then check_keyword w 2 (bytes "per") super_kw
        else if at w 1 b't'
        then check_keyword w 2 (bytes "ruct") struct_kw
        else if at w 1 b'p'
        then check_keyword w 2 (bytes "awn") spawn_kw
        else identifier)
    else identifier

unfoldable pub keyword_t : Bytes → TokenType
keyword_t w =
    if ltb 1 (length w)
    then (if at w 1 b'r'
        then (if ltb 2 (length w) && at w 2 b'u'
            then check_keyword w 3 (bytes "e") true_kw
            else if ltb 2 (length w) && at w 2 b'y'
            then check_keyword w 3 (bytes "") try_kw
            else if ltb 2 (length w) && at w 2 b'a'
            then check_keyword w 3 (bytes "it") trait_kw
            else identifier)
        else identifier)
    else identifier

unfoldable pub keyword_u : Bytes → TokenType
keyword_u w =
    if ltb 1 (length w)
    then (if at w 1 b'n'
        then (if ltb 2 (length w) && at w 2 b's'
            then check_keyword w 2 (bytes "safe") unsafe_kw
            else if ltb 2 (length w) && at w 2 b'q'
            then check_keyword w 2 (bytes "quote") unquote_kw
            else identifier)
        else identifier)
    else identifier

unfoldable pub keyword_v : Bytes → TokenType
keyword_v w = check_keyword w 1 (bytes "ar") var_kw

unfoldable pub keyword_w : Bytes → TokenType
keyword_w w = check_keyword w 1 (bytes "hile") while_kw

unfoldable pub keyword_y : Bytes → TokenType
keyword_y w = check_keyword w 1 (bytes "ield") yield_kw
