-- ===== src/Lexer/Keyword/Early.antt =====
-- The cases of `identifier_type` of src/lexer.c for the first letters a to i, a function for each.
use sage_tree.Base.{◌&&◌, Bytes, bytes, length, ltb, ◌==◌, if◌then◌else◌}
use sage_tree.Lexer.Token.{
  TokenType, identifier, and_kw, as_kw, async_kw, await_kw, break_kw, case_kw, catch_kw, class_kw,
  comptime_kw, const_kw, continue_kw, default_kw, defer_kw, else_kw, end_kw, enum_kw, false_kw,
  finally_kw, for_kw, from_kw, if_kw, impl_kw, import_kw, in_kw, init_kw,
}
use sage_tree.Lexer.Keyword.Check.{check_keyword, at}

unfoldable pub keyword_a : Bytes → TokenType
keyword_a w =
    if ltb 1 (length w)
    then (if at w 1 b'n'
        then check_keyword w 2 (bytes "d") and_kw
        else if at w 1 b's'
        then (if ltb 2 (length w) && at w 2 b'y'
            then check_keyword w 3 (bytes "nc") async_kw
            else check_keyword w 2 (bytes "") as_kw)
        else if at w 1 b'w'
        then check_keyword w 2 (bytes "ait") await_kw
        else identifier)
    else identifier

unfoldable pub keyword_b : Bytes → TokenType
keyword_b w =
    if ltb 1 (length w)
    then (if at w 1 b'r' then check_keyword w 2 (bytes "eak") break_kw else identifier)
    else identifier

unfoldable pub keyword_c : Bytes → TokenType
keyword_c w =
    if ltb 1 (length w)
    then (if at w 1 b'a'
        then (if ltb 2 (length w) && at w 2 b's'
            then check_keyword w 3 (bytes "e") case_kw
            else if ltb 2 (length w) && at w 2 b't'
            then check_keyword w 3 (bytes "ch") catch_kw
            else identifier)
        else if at w 1 b'l'
        then check_keyword w 2 (bytes "ass") class_kw
        else if at w 1 b'o'
        then (if ltb 2 (length w) && at w 2 b'n'
            then (if ltb 3 (length w) && at w 3 b't'
                then check_keyword w 2 (bytes "ntinue") continue_kw
                else if ltb 3 (length w) && at w 3 b's'
                then check_keyword w 2 (bytes "nst") const_kw
                else identifier)
            else if ltb 2 (length w) && at w 2 b'm'
            then check_keyword w 2 (bytes "mptime") comptime_kw
            else identifier)
        else identifier)
    else identifier

unfoldable pub keyword_d : Bytes → TokenType
keyword_d w =
    if ltb 1 (length w)
    then (if at w 1 b'e'
        then (if ltb 2 (length w) && at w 2 b'f'
            then (if ltb 3 (length w) && at w 3 b'a'
                then check_keyword w 4 (bytes "ult") default_kw
                else if ltb 3 (length w) && at w 3 b'e'
                then check_keyword w 4 (bytes "r") defer_kw
                else identifier)
            else identifier)
        else identifier)
    else identifier

unfoldable pub keyword_e : Bytes → TokenType
keyword_e w =
    if ltb 1 (length w)
    then (if at w 1 b'l'
        then (if ltb 2 (length w) && at w 2 b's'
            then check_keyword w 3 (bytes "e") else_kw
            else if ltb 2 (length w) && at w 2 b'i'
            then check_keyword w 3 (bytes "f") if_kw
            else identifier)
        else if at w 1 b'n'
        then (if ltb 2 (length w) && at w 2 b'u'
            then check_keyword w 3 (bytes "m") enum_kw
            else if ltb 2 (length w) && at w 2 b'd'
            then check_keyword w 3 (bytes "") end_kw
            else identifier)
        else identifier)
    else identifier

unfoldable pub keyword_f : Bytes → TokenType
keyword_f w =
    if ltb 1 (length w)
    then (if at w 1 b'a'
        then check_keyword w 2 (bytes "lse") false_kw
        else if at w 1 b'i'
        then check_keyword w 2 (bytes "nally") finally_kw
        else if at w 1 b'o'
        then check_keyword w 2 (bytes "r") for_kw
        else if at w 1 b'r'
        then check_keyword w 2 (bytes "om") from_kw
        else identifier)
    else identifier

unfoldable pub keyword_i : Bytes → TokenType
keyword_i w =
    if ltb 1 (length w)
    then (if at w 1 b'f'
        then check_keyword w 2 (bytes "") if_kw
        else if at w 1 b'm'
        then (if ltb 2 (length w) && at w 2 b'p'
            then (if ltb 3 (length w) && at w 3 b'o'
                then check_keyword w 2 (bytes "port") import_kw
                else if ltb 3 (length w) && at w 3 b'l'
                then check_keyword w 2 (bytes "pl") impl_kw
                else identifier)
            else identifier)
        else if at w 1 b'n'
        then (if length w == 2
            then check_keyword w 2 (bytes "") in_kw
            else if length w == 4
            then check_keyword w 2 (bytes "it") init_kw
            else identifier)
        else identifier)
    else identifier
