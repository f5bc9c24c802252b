-- ===== src/Lsp/Framing.antt =====
-- engine/src/lsp/lsp_framing.h: taking messages out of a buffer.
use code_scope.Prelude.{
  ℕ, zero, suc, ◌+◌, Bool, true, false, ◌||◌, Option, none, some, [], ◌∷◌, ◌++◌, Bytes, codes,
  length, take, drop, ltb, ◌==◌, if◌then◌else◌,
}
use code_scope.Resolver.Text.{starts_with}
use code_scope.Lsp.Decimal.{is_decimal, to_string, atoi}
pub mod Framed

abbrev pub line_ends : Bytes
line_ends = 13 ∷ 10 ∷ 13 ∷ 10 ∷ []

abbrev pub length_name : Bytes
length_name = codes "Content-Length:"

abbrev pub one_more : Option ℕ → Option ℕ
one_more none = none
one_more (some n) = some (suc n)

-- `find`: the offset of the first occurrence.
unfoldable pub find_text : Bytes → Bytes → Option ℕ
unfolding starts_with
find_text p [] = if starts_with p [] then some 0 else none
find_text p (c ∷ s) =
    let later = find_text p s in if starts_with p (c ∷ s) then some 0 else one_more later

-- The loop over the blanks in front of the length.
unfoldable pub skip_blanks : Bytes → Bytes
skip_blanks [] = []
skip_blanks (c ∷ s) = let rest = skip_blanks s in if c == b' ' then rest else c ∷ s

abbrev pub with_byte : ℕ → Option Bytes → Option Bytes
with_byte c none = none
with_byte c (some s) = some (c ∷ s)

-- What stands before the first end of a line; `none` if there is none.
unfoldable pub line_front : Bytes → Option Bytes
line_front [] = none
line_front (c ∷ s) =
    let rest = line_front s in if c == 13 || c == 10 then some [] else with_byte c rest

-- `LspFraming`, with the buffer that is left.
pub data Framing : Type 0 where
  need_more : Bytes → Framing
  skipped : Bytes → Framing
  message : Bytes → Bytes → Framing

unfoldable pub take_body : Bytes → ℕ → ℕ → Framing
take_body buffer body_start content_length =
    if content_length == 0
    then skipped (drop body_start buffer)
    else if ltb (length buffer) (body_start + content_length)
    then need_more buffer
    else message (take content_length (drop body_start buffer))
        (drop (body_start + content_length) buffer)

abbrev pub with_value : Bytes → ℕ → Option Bytes → Framing
with_value buffer header_end none = need_more buffer
with_value buffer header_end (some value) = take_body buffer (header_end + 4) (atoi value)

abbrev pub with_name : Bytes → ℕ → Option ℕ → Framing
with_name buffer header_end none = need_more buffer
with_name buffer header_end (some cl_pos) =
    if ltb header_end cl_pos
    then need_more buffer
    else with_value buffer header_end (line_front (skip_blanks (drop (cl_pos + 15) buffer)))

abbrev pub with_header : Bytes → Option ℕ → Framing
with_header buffer none = need_more buffer
with_header buffer (some header_end) = with_name buffer header_end (find_text length_name buffer)

unfoldable pub take_next_lsp_message : Bytes → Framing
unfolding find_text skip_blanks line_front take_body atoi
take_next_lsp_message buffer = with_header buffer (find_text line_ends buffer)

unfoldable pub wrap_lsp_framed : Bytes → Bytes
unfolding to_string
wrap_lsp_framed body = codes "Content-Length: " ++ (to_string (length body) ++ (line_ends ++ body))

abbrev id_name : Bytes
id_name = codes "\"id\""

abbrev skip_separators : Bytes → Bytes
skip_separators [] = []
skip_separators (c ∷ s) =
    let rest = skip_separators s in if c == b' ' || c == b':' then rest else c ∷ s

abbrev id_of : Bytes → ℕ → Bool
id_of [] expected = false
id_of (c ∷ s) expected = if is_decimal c then atoi (c ∷ s) == expected else false

abbrev response_at : Bytes → ℕ → Option ℕ → Bool
response_at body expected none = false
response_at body expected (some pos) = id_of (skip_separators (drop (pos + 4) body)) expected

-- For the ids that the client gives out, which are not negative.
unfoldable pub is_response_for : Bytes → ℕ → Bool
unfolding find_text atoi
is_response_for body expected = response_at body expected (find_text id_name body)
