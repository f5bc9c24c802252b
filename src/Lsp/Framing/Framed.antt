-- ===== src/Lsp/Framing/Framed.antt =====
-- `takeNextLspMessage` on a buffer that starts with a text of `wrapLspFramed`.
use code_scope.Prelude.{
  ℕ, ◌+◌, ◌<◌, ◌^◌, true, false, ◌||◌, some, [], ◌∷◌, ◌++◌, append_assoc, Bytes, codes, length,
  drop, length-append, take-append_left, drop-append_left, All, ltb, ◌==◌, ◌≡◌, refl, sym, ap, ◌∙◌,
  ◌≢◌, arith,
}
use code_scope.Resolver.Text.{starts_with}
use code_scope.Lsp.Decimal.{
  is_decimal, AreDigits, to_string, to_string-AreDigits, atoi, atoi-to_string,
}
use code_scope.Lsp.Framing.{
  line_ends, length_name, one_more, find_text, skip_blanks, with_byte, line_front, message,
  take_body, with_value, with_name, with_header, take_next_lsp_message, wrap_lsp_framed,
}

-- A text that starts with a byte which the bytes in front are not.
find_text-behind :
    (c : ℕ) (p u s : Bytes)
    → All (λ x. (x == c) ≡ false) u
    → find_text (c ∷ p) s ≡ some 0
    → find_text (c ∷ p) (u ++ s) ≡ some (length u)
unfolding find_text starts_with
find_text-behind c p [] s h e = e
find_text-behind c p (x ∷ u) s h e = rw h.0 (ap one_more (find_text-behind c p u s h.1 e))

find_text-line_ends : (s : Bytes) → find_text line_ends (line_ends ++ s) ≡ some 0
unfolding find_text starts_with
find_text-line_ends s = refl

find_text-length_name : (s : Bytes) → find_text length_name (codes "Content-Length: " ++ s) ≡ some 0
unfolding find_text starts_with
find_text-length_name s = refl

digit-not_end : (c : ℕ) → is_decimal c ≡ true → (c == 13 || c == 10) ≡ false
digit-not_end c h = ground arith

digit-not_return : (c : ℕ) → is_decimal c ≡ true → (c == 13) ≡ false
digit-not_return c h = ground arith

digit-not_blank : (c : ℕ) → is_decimal c ≡ true → (c == b' ') ≡ false
digit-not_blank c h = ground arith

digits-not_return : (d : Bytes) → AreDigits d → All (λ x. (x == 13) ≡ false) d
digits-not_return [] h = tt
digits-not_return (c ∷ d) h = (digit-not_return c h.0, digits-not_return d h.1)

skip_blanks-digits : (d s : Bytes) → AreDigits d → skip_blanks (32 ∷ (d ++ 13 ∷ s)) ≡ d ++ 13 ∷ s
unfolding skip_blanks
skip_blanks-digits [] s h = refl
skip_blanks-digits (c ∷ d) s h = rw (digit-not_blank c h.0)

line_front-digits : (d s : Bytes) → AreDigits d → line_front (d ++ 13 ∷ s) ≡ some d
unfolding line_front
line_front-digits [] s h = refl
line_front-digits (c ∷ d) s h =
    rw (digit-not_end c h.0) (ap (with_byte c) (line_front-digits d s h.1))

length-some : (s : Bytes) → s ≢ [] → (length s == 0) ≡ false
length-some [] h = absurd (h refl)
length-some (c ∷ s) h = ground arith

ltb-sum : (a b c : ℕ) → ltb (a + (b + c)) (a + b) ≡ false
ltb-sum a b c = ground arith

length-all : (a b c : Bytes) → length (a ++ (b ++ c)) ≡ length a + (length b + length c)
length-all a b c = length-append a (b ++ c) ∙ ap (λ n. length a + n) (length-append b c)

drop-both : (a b c : Bytes) → drop (length a + length b) (a ++ (b ++ c)) ≡ c
drop-both a b c =
    ap (λ n. drop n (a ++ (b ++ c))) (sym (length-append a b))
    ∙ ap (drop (length (a ++ b))) (sym (append_assoc a b c))
    ∙ drop-append_left (a ++ b) c

-- The body behind a header.
take_body-behind :
    (head body rest : Bytes)
    → body ≢ []
    → take_body (head ++ (body ++ rest)) (length head) (length body) ≡ message body rest
unfolding take_body
take_body-behind head body rest h = rw (
  length-some body h,
  length-all head body rest,
  ltb-sum (length head) (length body) (length rest),
  drop-both head body rest,
  drop-append_left head (body ++ rest),
  take-append_left body rest,
)

ltb-zero : (n : ℕ) → ltb n 0 ≡ false
ltb-zero n = ground arith

abbrev header : Bytes → Bytes
header d = codes "Content-Length: " ++ d

-- The length of the body stands between the name and the end of the line.
with_name-header :
    (d s : Bytes)
    → AreDigits d
    → with_name (header d ++ (line_ends ++ s)) (length (header d)) (some 0)
      ≡ take_body (header d ++ (line_ends ++ s)) (length (header d) + 4) (atoi d)
with_name-header d s h = rw (ltb-zero (length (header d))) (
    ap (with_value (header d ++ (line_ends ++ s)) (length (header d))) (
      ap line_front (skip_blanks-digits d (10 ∷ 13 ∷ 10 ∷ s) h)
      ∙ line_front-digits d (10 ∷ 13 ∷ 10 ∷ s) h))

take_body-header :
    (d body rest : Bytes)
    → body ≢ []
    → take_body (header d ++ (line_ends ++ (body ++ rest))) (length (header d) + 4) (length body)
      ≡ message body rest
take_body-header d body rest h =
    ap (λ b. take_body b (length (header d) + 4) (length body))
      (sym (append_assoc (header d) line_ends (body ++ rest)))
    ∙ ap (λ n. take_body ((header d ++ line_ends) ++ (body ++ rest)) n (length body))
        (sym (length-append (header d) line_ends))
    ∙ take_body-behind (header d ++ line_ends) body rest h

header-not_return : (d : Bytes) → AreDigits d → All (λ x. (x == 13) ≡ false) (header d)
header-not_return d h = (
  refl,
  (
    refl,
    (
      refl,
      (
        refl,
        (
          refl,
          (
            refl,
            (
              refl,
              (
                refl,
                (
                  refl,
                  (refl, (refl, (refl, (refl, (refl, (refl, (refl, digits-not_return d h))))))),
                ),
              ),
            ),
          ),
        ),
      ),
    ),
  ),
)

take_next-header :
    (d body rest : Bytes)
    → AreDigits d
    → atoi d ≡ length body
    → body ≢ []
    → take_next_lsp_message (header d ++ (line_ends ++ (body ++ rest))) ≡ message body rest
unfolding take_next_lsp_message
take_next-header d body rest h e n =
    ap (with_header (header d ++ (line_ends ++ (body ++ rest)))) (
      find_text-behind 13 (10 ∷ 13 ∷ 10 ∷ []) (header d) (line_ends ++ (body ++ rest))
        (header-not_return d h) (find_text-line_ends (body ++ rest)))
    ∙ ap (with_name (header d ++ (line_ends ++ (body ++ rest))) (length (header d)))
        (find_text-length_name (d ++ (line_ends ++ (body ++ rest))))
    ∙ with_name-header d (body ++ rest) h
    ∙ ap (take_body (header d ++ (line_ends ++ (body ++ rest))) (length (header d) + 4)) e
    ∙ take_body-header d body rest n

wrap-header :
    (body rest : Bytes)
    → wrap_lsp_framed body ++ rest
      ≡ header (to_string (length body)) ++ (line_ends ++ (body ++ rest))
unfolding wrap_lsp_framed
wrap-header body rest =
    append_assoc (codes "Content-Length: ") (to_string (length body) ++ (line_ends ++ body)) rest
    ∙ ap (λ t. codes "Content-Length: " ++ t)
        (append_assoc (to_string (length body)) (line_ends ++ body) rest)

-- A message that is not empty, of less than 2^31 bytes, is taken out of the buffer whole once it is
-- wrapped, and what follows it is left.
pub take_next_lsp_message-wrap :
    (body rest : Bytes)
    → body ≢ []
    → length body < 2 ^ 31
    → take_next_lsp_message (wrap_lsp_framed body ++ rest) ≡ message body rest
take_next_lsp_message-wrap body rest h fits =
    ap take_next_lsp_message (wrap-header body rest)
    ∙ take_next-header (to_string (length body)) body rest (to_string-AreDigits (length body))
        (atoi-to_string (length body)) h
