-- ===== src/Lsp/Tests.antt =====
-- Buffers with messages, parts of messages and junk.
use code_scope.Prelude.{◌++◌, Bytes, true, false, codes, arith, ◌≡◌, refl}
use code_scope.Lsp.Framing.{
  need_more, skipped, message, take_next_lsp_message, wrap_lsp_framed, is_response_for,
}
use code_scope.Lsp.Framing.Framed.{take_next_lsp_message-wrap}

abbrev answer : Bytes
answer = codes "{\"id\" : 12, \"result\":null}"

take_next_lsp_message-wrap_example :
    take_next_lsp_message (wrap_lsp_framed answer ++ codes "Content-")
    ≡ message answer (codes "Content-")
take_next_lsp_message-wrap_example =
    take_next_lsp_message-wrap answer (codes "Content-") (ground arith) (omega arith)

part :
    take_next_lsp_message (codes "Content-Length: 5\r\n\r\nabc")
    ≡ need_more (codes "Content-Length: 5\r\n\r\nabc")
unfolding take_next_lsp_message
part = refl

junk : take_next_lsp_message (codes "Content-Length: x\r\n\r\nabc") ≡ skipped (codes "abc")
unfolding take_next_lsp_message
junk = refl

response : is_response_for answer 12 ≡ true
unfolding is_response_for
response = refl

other_response : is_response_for answer 1 ≡ false
unfolding is_response_for
other_response = refl
