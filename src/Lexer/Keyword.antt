-- ===== src/Lexer/Keyword.antt =====
-- `identifier_type` of src/lexer.c: the switch on the first bytes of a word.
pub mod Check
pub mod Early
pub mod Late
use sage_tree.Base.{
  ℕ, ◌+◌, Bool, ◌&&◌, Bytes, bytes, bytes_eq, length, drop, get_or, ltb, ◌==◌, if◌then◌else◌,
}
use sage_tree.Lexer.Token.{TokenType, identifier}
use sage_tree.Lexer.Keyword.Check.{at}
use sage_tree.Lexer.Keyword.Early.{
  keyword_a, keyword_b, keyword_c, keyword_d, keyword_e, keyword_f, keyword_i,
}
use sage_tree.Lexer.Keyword.Late.{
  keyword_l, keyword_m, keyword_n, keyword_o, keyword_p, keyword_q, keyword_r, keyword_s, keyword_t,
  keyword_u, keyword_v, keyword_w, keyword_y,
}

unfoldable pub identifier_type : Bytes → TokenType
identifier_type w =
    if at w 0 b'a'
    then keyword_a w
    else if at w 0 b'b'
    then keyword_b w
    else if at w 0 b'c'
    then keyword_c w
    else if at w 0 b'd'
    then keyword_d w
    else if at w 0 b'e'
    then keyword_e w
    else if at w 0 b'f'
    then keyword_f w
    else if at w 0 b'i'
    then keyword_i w
    else if at w 0 b'l'
    then keyword_l w
    else if at w 0 b'm'
    then keyword_m w
    else if at w 0 b'n'
    then keyword_n w
    else if at w 0 b'o'
    then keyword_o w
    else if at w 0 b'p'
    then keyword_p w
    else if at w 0 b'q'
    then keyword_q w
    else if at w 0 b'r'
    then keyword_r w
    else if at w 0 b's'
    then keyword_s w
    else if at w 0 b't'
    then keyword_t w
    else if at w 0 b'u'
    then keyword_u w
    else if at w 0 b'v'
    then keyword_v w
    else if at w 0 b'w'
    then keyword_w w
    else if at w 0 b'y'
    then keyword_y w
    else identifier
