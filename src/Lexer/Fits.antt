-- ===== src/Lexer/Fits.antt =====
-- Every keyword that `identifier_type` of src/lexer.c returns has the text of the word.
use sage_tree.Base.{◌≡◌, refl, Bool, true, false, ◌||◌, [], ◌∷◌, Bytes, arith, if◌then◌else◌}
use sage_tree.Lexer.Token.{TokenType, identifier}
use sage_tree.Lexer.Keyword.{identifier_type}
use sage_tree.Lexer.Keyword.Check.{check_keyword, at}
use sage_tree.Lexer.Keyword.Early.{
  keyword_a, keyword_b, keyword_c, keyword_d, keyword_e, keyword_f, keyword_i,
}
use sage_tree.Lexer.Keyword.Late.{
  keyword_l, keyword_m, keyword_n, keyword_o, keyword_p, keyword_q, keyword_r, keyword_s, keyword_t,
  keyword_u, keyword_v, keyword_w, keyword_y,
}
use sage_tree.Lexer.Spelling.{spelled}

unfoldable pub is_identifier : TokenType → Bool
is_identifier identifier = true
is_identifier _ = false

-- The type is that of no keyword, or the word is its text.
abbrev pub Fits : Bytes → TokenType → Type 0
Fits w type = (is_identifier type || spelled type w) ≡ true

keyword_a-Fits : (w : Bytes) → at w 0 b'a' ≡ true → Fits w (keyword_a w)
unfolding keyword_a check_keyword spelled is_identifier
keyword_a-Fits [] h = ground arith
keyword_a-Fits (c0 ∷ []) h = ground arith
keyword_a-Fits (c0 ∷ c1 ∷ []) h = ground arith
keyword_a-Fits (c0 ∷ c1 ∷ c2 ∷ []) h = ground arith
keyword_a-Fits (c0 ∷ c1 ∷ c2 ∷ c3 ∷ w) h = ground arith

keyword_b-Fits : (w : Bytes) → at w 0 b'b' ≡ true → Fits w (keyword_b w)
unfolding keyword_b check_keyword spelled is_identifier
keyword_b-Fits [] h = ground arith
keyword_b-Fits (c0 ∷ []) h = ground arith
keyword_b-Fits (c0 ∷ c1 ∷ []) h = ground arith
keyword_b-Fits (c0 ∷ c1 ∷ c2 ∷ []) h = ground arith
keyword_b-Fits (c0 ∷ c1 ∷ c2 ∷ c3 ∷ w) h = ground arith

keyword_c-Fits : (w : Bytes) → at w 0 b'c' ≡ true → Fits w (keyword_c w)
unfolding keyword_c check_keyword spelled is_identifier
keyword_c-Fits [] h = ground arith
keyword_c-Fits (c0 ∷ []) h = ground arith
keyword_c-Fits (c0 ∷ c1 ∷ []) h = ground arith
keyword_c-Fits (c0 ∷ c1 ∷ c2 ∷ []) h = ground arith
keyword_c-Fits (c0 ∷ c1 ∷ c2 ∷ c3 ∷ w) h = ground arith

keyword_d-Fits : (w : Bytes) → at w 0 b'd' ≡ true → Fits w (keyword_d w)
unfolding keyword_d check_keyword spelled is_identifier
keyword_d-Fits [] h = ground arith
keyword_d-Fits (c0 ∷ []) h = ground arith
keyword_d-Fits (c0 ∷ c1 ∷ []) h = ground arith
keyword_d-Fits (c0 ∷ c1 ∷ c2 ∷ []) h = ground arith
keyword_d-Fits (c0 ∷ c1 ∷ c2 ∷ c3 ∷ w) h = ground arith

keyword_e-Fits : (w : Bytes) → at w 0 b'e' ≡ true → Fits w (keyword_e w)
unfolding keyword_e check_keyword spelled is_identifier
keyword_e-Fits [] h = ground arith
keyword_e-Fits (c0 ∷ []) h = ground arith
keyword_e-Fits (c0 ∷ c1 ∷ []) h = ground arith
keyword_e-Fits (c0 ∷ c1 ∷ c2 ∷ []) h = ground arith
keyword_e-Fits (c0 ∷ c1 ∷ c2 ∷ c3 ∷ w) h = ground arith

keyword_f-Fits : (w : Bytes) → at w 0 b'f' ≡ true → Fits w (keyword_f w)
unfolding keyword_f check_keyword spelled is_identifier
keyword_f-Fits [] h = ground arith
keyword_f-Fits (c0 ∷ []) h = ground arith
keyword_f-Fits (c0 ∷ c1 ∷ []) h = ground arith
keyword_f-Fits (c0 ∷ c1 ∷ c2 ∷ []) h = ground arith
keyword_f-Fits (c0 ∷ c1 ∷ c2 ∷ c3 ∷ w) h = ground arith

keyword_i-Fits : (w : Bytes) → at w 0 b'i' ≡ true → Fits w (keyword_i w)
unfolding keyword_i check_keyword spelled is_identifier
keyword_i-Fits [] h = ground arith
keyword_i-Fits (c0 ∷ []) h = ground arith
keyword_i-Fits (c0 ∷ c1 ∷ []) h = ground arith
keyword_i-Fits (c0 ∷ c1 ∷ c2 ∷ []) h = ground arith
keyword_i-Fits (c0 ∷ c1 ∷ c2 ∷ c3 ∷ w) h = ground arith

keyword_l-Fits : (w : Bytes) → at w 0 b'l' ≡ true → Fits w (keyword_l w)
unfolding keyword_l check_keyword spelled is_identifier
keyword_l-Fits [] h = ground arith
keyword_l-Fits (c0 ∷ []) h = ground arith
keyword_l-Fits (c0 ∷ c1 ∷ []) h = ground arith
keyword_l-Fits (c0 ∷ c1 ∷ c2 ∷ []) h = ground arith
keyword_l-Fits (c0 ∷ c1 ∷ c2 ∷ c3 ∷ w) h = ground arith

keyword_m-Fits : (w : Bytes) → at w 0 b'm' ≡ true → Fits w (keyword_m w)
unfolding keyword_m check_keyword spelled is_identifier
keyword_m-Fits [] h = ground arith
keyword_m-Fits (c0 ∷ []) h = ground arith
keyword_m-Fits (c0 ∷ c1 ∷ []) h = ground arith
keyword_m-Fits (c0 ∷ c1 ∷ c2 ∷ []) h = ground arith
keyword_m-Fits (c0 ∷ c1 ∷ c2 ∷ c3 ∷ w) h = ground arith

keyword_n-Fits : (w : Bytes) → at w 0 b'n' ≡ true → Fits w (keyword_n w)
unfolding keyword_n check_keyword spelled is_identifier
keyword_n-Fits [] h = ground arith
keyword_n-Fits (c0 ∷ []) h = ground arith
keyword_n-Fits (c0 ∷ c1 ∷ []) h = ground arith
keyword_n-Fits (c0 ∷ c1 ∷ c2 ∷ []) h = ground arith
keyword_n-Fits (c0 ∷ c1 ∷ c2 ∷ c3 ∷ w) h = ground arith

keyword_o-Fits : (w : Bytes) → at w 0 b'o' ≡ true → Fits w (keyword_o w)
unfolding keyword_o check_keyword spelled is_identifier
keyword_o-Fits [] h = ground arith
keyword_o-Fits (c0 ∷ []) h = ground arith
keyword_o-Fits (c0 ∷ c1 ∷ []) h = ground arith
keyword_o-Fits (c0 ∷ c1 ∷ c2 ∷ []) h = ground arith
keyword_o-Fits (c0 ∷ c1 ∷ c2 ∷ c3 ∷ w) h = ground arith

keyword_p-Fits : (w : Bytes) → at w 0 b'p' ≡ true → Fits w (keyword_p w)
unfolding keyword_p check_keyword spelled is_identifier
keyword_p-Fits [] h = ground arith
keyword_p-Fits (c0 ∷ []) h = ground arith
keyword_p-Fits (c0 ∷ c1 ∷ []) h = ground arith
keyword_p-Fits (c0 ∷ c1 ∷ c2 ∷ []) h = ground arith
keyword_p-Fits (c0 ∷ c1 ∷ c2 ∷ c3 ∷ w) h = ground arith

keyword_q-Fits : (w : Bytes) → at w 0 b'q' ≡ true → Fits w (keyword_q w)
unfolding keyword_q check_keyword spelled is_identifier
keyword_q-Fits [] h = ground arith
keyword_q-Fits (c0 ∷ []) h = ground arith
keyword_q-Fits (c0 ∷ c1 ∷ []) h = ground arith
keyword_q-Fits (c0 ∷ c1 ∷ c2 ∷ []) h = ground arith
keyword_q-Fits (c0 ∷ c1 ∷ c2 ∷ c3 ∷ w) h = ground arith

keyword_r-Fits : (w : Bytes) → at w 0 b'r' ≡ true → Fits w (keyword_r w)
unfolding keyword_r check_keyword spelled is_identifier
keyword_r-Fits [] h = ground arith
keyword_r-Fits (c0 ∷ []) h = ground arith
keyword_r-Fits (c0 ∷ c1 ∷ []) h = ground arith
keyword_r-Fits (c0 ∷ c1 ∷ c2 ∷ []) h = ground arith
keyword_r-Fits (c0 ∷ c1 ∷ c2 ∷ c3 ∷ w) h = ground arith

keyword_s-Fits : (w : Bytes) → at w 0 b's' ≡ true → Fits w (keyword_s w)
unfolding keyword_s check_keyword spelled is_identifier
keyword_s-Fits [] h = ground arith
keyword_s-Fits (c0 ∷ []) h = ground arith
keyword_s-Fits (c0 ∷ c1 ∷ []) h = ground arith
keyword_s-Fits (c0 ∷ c1 ∷ c2 ∷ []) h = ground arith
keyword_s-Fits (c0 ∷ c1 ∷ c2 ∷ c3 ∷ w) h = ground arith

keyword_t-Fits : (w : Bytes) → at w 0 b't' ≡ true → Fits w (keyword_t w)
unfolding keyword_t check_keyword spelled is_identifier
keyword_t-Fits [] h = ground arith
keyword_t-Fits (c0 ∷ []) h = ground arith
keyword_t-Fits (c0 ∷ c1 ∷ []) h = ground arith
keyword_t-Fits (c0 ∷ c1 ∷ c2 ∷ []) h = ground arith
keyword_t-Fits (c0 ∷ c1 ∷ c2 ∷ c3 ∷ w) h = ground arith

keyword_u-Fits : (w : Bytes) → at w 0 b'u' ≡ true → Fits w (keyword_u w)
unfolding keyword_u check_keyword spelled is_identifier
keyword_u-Fits [] h = ground arith
keyword_u-Fits (c0 ∷ []) h = ground arith
keyword_u-Fits (c0 ∷ c1 ∷ []) h = ground arith
keyword_u-Fits (c0 ∷ c1 ∷ c2 ∷ []) h = ground arith
keyword_u-Fits (c0 ∷ c1 ∷ c2 ∷ c3 ∷ w) h = ground arith

keyword_v-Fits : (w : Bytes) → at w 0 b'v' ≡ true → Fits w (keyword_v w)
unfolding keyword_v check_keyword spelled is_identifier
keyword_v-Fits [] h = ground arith
keyword_v-Fits (c0 ∷ []) h = ground arith
keyword_v-Fits (c0 ∷ c1 ∷ []) h = ground arith
keyword_v-Fits (c0 ∷ c1 ∷ c2 ∷ []) h = ground arith
keyword_v-Fits (c0 ∷ c1 ∷ c2 ∷ c3 ∷ w) h = ground arith

keyword_w-Fits : (w : Bytes) → at w 0 b'w' ≡ true → Fits w (keyword_w w)
unfolding keyword_w check_keyword spelled is_identifier
keyword_w-Fits [] h = ground arith
keyword_w-Fits (c0 ∷ []) h = ground arith
keyword_w-Fits (c0 ∷ c1 ∷ []) h = ground arith
keyword_w-Fits (c0 ∷ c1 ∷ c2 ∷ []) h = ground arith
keyword_w-Fits (c0 ∷ c1 ∷ c2 ∷ c3 ∷ w) h = ground arith

keyword_y-Fits : (w : Bytes) → at w 0 b'y' ≡ true → Fits w (keyword_y w)
unfolding keyword_y check_keyword spelled is_identifier
keyword_y-Fits [] h = ground arith
keyword_y-Fits (c0 ∷ []) h = ground arith
keyword_y-Fits (c0 ∷ c1 ∷ []) h = ground arith
keyword_y-Fits (c0 ∷ c1 ∷ c2 ∷ []) h = ground arith
keyword_y-Fits (c0 ∷ c1 ∷ c2 ∷ c3 ∷ w) h = ground arith

identifier-Fits : (w : Bytes) → Fits w identifier
unfolding is_identifier
identifier-Fits w = refl

choose :
    (w : Bytes) (test : Bool) (a b : TokenType)
    → (test ≡ true → Fits w a)
    → Fits w b
    → Fits w (if test then a else b)
choose w true a b ha hb = ha refl
choose w false a b ha hb = hb

pub identifier_type-Fits : (w : Bytes) → Fits w (identifier_type w)
unfolding identifier_type
identifier_type-Fits w = choose w (at w 0 b'a') _ _ (keyword_a-Fits w) (
    choose w (at w 0 b'b') _ _ (keyword_b-Fits w) (
      choose w (at w 0 b'c') _ _ (keyword_c-Fits w) (
        choose w (at w 0 b'd') _ _ (keyword_d-Fits w) (
          choose w (at w 0 b'e') _ _ (keyword_e-Fits w) (
            choose w (at w 0 b'f') _ _ (keyword_f-Fits w) (
              choose w (at w 0 b'i') _ _ (keyword_i-Fits w) (
                choose w (at w 0 b'l') _ _ (keyword_l-Fits w) (
                  choose w (at w 0 b'm') _ _ (keyword_m-Fits w) (
                    choose w (at w 0 b'n') _ _ (keyword_n-Fits w) (
                      choose w (at w 0 b'o') _ _ (keyword_o-Fits w) (
                        choose w (at w 0 b'p') _ _ (keyword_p-Fits w) (
                          choose w (at w 0 b'q') _ _ (keyword_q-Fits w) (
                            choose w (at w 0 b'r') _ _ (keyword_r-Fits w) (
                              choose w (at w 0 b's') _ _ (keyword_s-Fits w) (
                                choose w (at w 0 b't') _ _ (keyword_t-Fits w) (
                                  choose w (at w 0 b'u') _ _ (keyword_u-Fits w) (
                                    choose w (at w 0 b'v') _ _ (keyword_v-Fits w) (
                                      choose w (at w 0 b'w') _ _ (keyword_w-Fits w) (
                                        choose w (at w 0 b'y') _ _ (keyword_y-Fits w)
                                          (identifier-Fits w))))))))))))))))))))
