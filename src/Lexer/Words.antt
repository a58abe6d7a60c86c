-- ===== src/Lexer/Words.antt =====
-- The type of a word is never one of the layout.
use sage_tree.Base.{ℕ, ◌≡◌, refl, Bool, true, false, Bytes, ◌==◌, get_or, arith, if◌then◌else◌}
use sage_tree.Lexer.Token.{TokenType, identifier}
use sage_tree.Lexer.Keyword.{identifier_type}
use sage_tree.Lexer.Keyword.Check.{check_keyword}
use sage_tree.Lexer.Keyword.Early.{
  keyword_a, keyword_b, keyword_c, keyword_d, keyword_e, keyword_f, keyword_i,
}
use sage_tree.Lexer.Keyword.Late.{
  keyword_l, keyword_m, keyword_n, keyword_o, keyword_p, keyword_q, keyword_r, keyword_s, keyword_t,
  keyword_u, keyword_v, keyword_w, keyword_y,
}
use sage_tree.Lexer.Moves.{is_layout}

abbrev pub IsWord : TokenType → Type 0
IsWord type = is_layout type ≡ false

check_keyword-IsWord :
    (w : Bytes) (i : ℕ) (text : Bytes) (type : TokenType)
    → IsWord type
    → IsWord (check_keyword w i text type)
unfolding check_keyword is_layout
check_keyword-IsWord w i text type h = ground arith

keyword_a-IsWord : (w : Bytes) → IsWord (keyword_a w)
unfolding keyword_a check_keyword is_layout
keyword_a-IsWord w = ground arith

keyword_b-IsWord : (w : Bytes) → IsWord (keyword_b w)
unfolding keyword_b check_keyword is_layout
keyword_b-IsWord w = ground arith

keyword_c-IsWord : (w : Bytes) → IsWord (keyword_c w)
unfolding keyword_c check_keyword is_layout
keyword_c-IsWord w = ground arith

keyword_d-IsWord : (w : Bytes) → IsWord (keyword_d w)
unfolding keyword_d check_keyword is_layout
keyword_d-IsWord w = ground arith

keyword_e-IsWord : (w : Bytes) → IsWord (keyword_e w)
unfolding keyword_e check_keyword is_layout
keyword_e-IsWord w = ground arith

keyword_f-IsWord : (w : Bytes) → IsWord (keyword_f w)
unfolding keyword_f check_keyword is_layout
keyword_f-IsWord w = ground arith

keyword_i-IsWord : (w : Bytes) → IsWord (keyword_i w)
unfolding keyword_i check_keyword is_layout
keyword_i-IsWord w = ground arith

keyword_l-IsWord : (w : Bytes) → IsWord (keyword_l w)
unfolding keyword_l check_keyword is_layout
keyword_l-IsWord w = ground arith

keyword_m-IsWord : (w : Bytes) → IsWord (keyword_m w)
unfolding keyword_m check_keyword is_layout
keyword_m-IsWord w = ground arith

keyword_n-IsWord : (w : Bytes) → IsWord (keyword_n w)
unfolding keyword_n check_keyword is_layout
keyword_n-IsWord w = ground arith

keyword_o-IsWord : (w : Bytes) → IsWord (keyword_o w)
unfolding keyword_o check_keyword is_layout
keyword_o-IsWord w = ground arith

keyword_p-IsWord : (w : Bytes) → IsWord (keyword_p w)
unfolding keyword_p check_keyword is_layout
keyword_p-IsWord w = ground arith

keyword_q-IsWord : (w : Bytes) → IsWord (keyword_q w)
unfolding keyword_q check_keyword is_layout
keyword_q-IsWord w = ground arith

keyword_r-IsWord : (w : Bytes) → IsWord (keyword_r w)
unfolding keyword_r check_keyword is_layout
keyword_r-IsWord w = ground arith

keyword_s-IsWord : (w : Bytes) → IsWord (keyword_s w)
unfolding keyword_s check_keyword is_layout
keyword_s-IsWord w = ground arith

keyword_t-IsWord : (w : Bytes) → IsWord (keyword_t w)
unfolding keyword_t check_keyword is_layout
keyword_t-IsWord w = ground arith

keyword_u-IsWord : (w : Bytes) → IsWord (keyword_u w)
unfolding keyword_u check_keyword is_layout
keyword_u-IsWord w = ground arith

keyword_v-IsWord : (w : Bytes) → IsWord (keyword_v w)
unfolding keyword_v check_keyword is_layout
keyword_v-IsWord w = ground arith

keyword_w-IsWord : (w : Bytes) → IsWord (keyword_w w)
unfolding keyword_w check_keyword is_layout
keyword_w-IsWord w = ground arith

keyword_y-IsWord : (w : Bytes) → IsWord (keyword_y w)
unfolding keyword_y check_keyword is_layout
keyword_y-IsWord w = ground arith

identifier-IsWord : IsWord identifier
unfolding is_layout
identifier-IsWord = refl

pick : (test : Bool) (a b : TokenType) → IsWord a → IsWord b → IsWord (if test then a else b)
pick true a b ha hb = ha
pick false a b ha hb = hb

pub identifier_type-IsWord : (w : Bytes) → IsWord (identifier_type w)
unfolding identifier_type
identifier_type-IsWord w = pick (get_or w 0 0 == b'a') _ _ (keyword_a-IsWord w) (
    pick (get_or w 0 0 == b'b') _ _ (keyword_b-IsWord w) (
      pick (get_or w 0 0 == b'c') _ _ (keyword_c-IsWord w) (
        pick (get_or w 0 0 == b'd') _ _ (keyword_d-IsWord w) (
          pick (get_or w 0 0 == b'e') _ _ (keyword_e-IsWord w) (
            pick (get_or w 0 0 == b'f') _ _ (keyword_f-IsWord w) (
              pick (get_or w 0 0 == b'i') _ _ (keyword_i-IsWord w) (
                pick (get_or w 0 0 == b'l') _ _ (keyword_l-IsWord w) (
                  pick (get_or w 0 0 == b'm') _ _ (keyword_m-IsWord w) (
                    pick (get_or w 0 0 == b'n') _ _ (keyword_n-IsWord w) (
                      pick (get_or w 0 0 == b'o') _ _ (keyword_o-IsWord w) (
                        pick (get_or w 0 0 == b'p') _ _ (keyword_p-IsWord w) (
                          pick (get_or w 0 0 == b'q') _ _ (keyword_q-IsWord w) (
                            pick (get_or w 0 0 == b'r') _ _ (keyword_r-IsWord w) (
                              pick (get_or w 0 0 == b's') _ _ (keyword_s-IsWord w) (
                                pick (get_or w 0 0 == b't') _ _ (keyword_t-IsWord w) (
                                  pick (get_or w 0 0 == b'u') _ _ (keyword_u-IsWord w) (
                                    pick (get_or w 0 0 == b'v') _ _ (keyword_v-IsWord w) (
                                      pick (get_or w 0 0 == b'w') _ _ (keyword_w-IsWord w) (
                                        pick (get_or w 0 0 == b'y') _ _ (keyword_y-IsWord w)
                                          identifier-IsWord)))))))))))))))))))
