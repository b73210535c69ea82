-- ===== src/Encode/Whole.antt =====
-- `encode_snmp_response` writes the message, or fails because it does not fit.
use open_wrt_sdk.Common.{ℕ, ◌≤◌, ◌<◌, ◌≡◌, sym, List, ◌++◌, append-nil, length, arith, All}
use open_wrt_sdk.Types.{max_packet_size, Value, Request, Response, Client}
use open_wrt_sdk.Ber
use open_wrt_sdk.Outcome.{Outcome, ok, ◌>>=◌, Answers, Answers-bind}
use open_wrt_sdk.Encode.{
  put, put_header, put_integer, encode_varbinds, encode_snmp_integer, encode_snmp_string,
  encode_snmp_sequence_header, error_values, encode_snmp_response, get_string_length,
}
use open_wrt_sdk.Encode.Write.{Written}
use open_wrt_sdk.Encode.Varbinds.{varbinds-Answers}
use open_wrt_sdk.Encode.Reply.{
  element, varbinds_bytes, pdu_bytes, message_bytes, IsEncoded, put_header-Answers,
  put_integer-Answers, put_string-Answers, Carries, move_to_start-Carries, length-le-append,
}
use native.Mathlib.Nat.{le_trans, le_refl, lt_of_lt_of_le}

-- One more step of the chain: what is written grows, and a lack of room now is one at the end.
then_put :
    (f : List ℕ × ℕ → Outcome (List ℕ × ℕ)) (k : List ℕ × ℕ → Outcome Client) (body whole : List ℕ)
    (at : List ℕ × ℕ)
    → length body ≤ length whole
    → Answers (Written body) (max_packet_size < length body) (f at)
    → ((at' : List ℕ × ℕ)
        → Written body at'
        → Answers (Carries whole) (max_packet_size < length whole) (k at'))
    → Answers (Carries whole) (max_packet_size < length whole) (f at >>= k)
then_put f k body whole at le h next =
    Answers-bind (Written body) _ (max_packet_size < length body) _ (f at) k h
      (λ q. lt_of_lt_of_le q le) next

-- If the values of a response have the lengths of their bytes, the packet buffer has its 2048
-- bytes and the community at most 65535, the encoder of responses never leaves an array. It
-- succeeds, and then the packet is the nested message (version, community, and the response with
-- its id, status, index and bindings) and the buffer keeps its size, or it fails, and then that
-- message is longer than the buffer.
pub encode_snmp_response-Answers :
    (request : Request) (response : Response) (client : Client) (values : List Value)
    → error_values request response ≡ ok values
    → All IsEncoded values
    → length request.community ≤ 0xffff
    → length client.packet ≡ max_packet_size
    → Answers
        (Carries (message_bytes request response values))
        (max_packet_size < length (message_bytes request response values))
        (encode_snmp_response request response client)
unfolding encode_snmp_response
encode_snmp_response-Answers request response client values e h short full = rw e (
    then_put (encode_varbinds values) _ b₁ whole (client.packet, max_packet_size) le₁
      (varbinds-Answers values (client.packet, max_packet_size) h
        (client.packet, sym (append-nil client.packet), full, omega arith))
      λ at₁ w₁.
        then_put (put_header Ber.sequence) _ b₂ whole at₁ le₂
          (put_header-Answers Ber.sequence b₁ at₁ w₁)
          λ at₂ w₂.
            then_put (put_integer response.error_index) _ b₃ whole at₂ le₃
              (put_integer-Answers response.error_index b₂ at₂ w₂)
              λ at₃ w₃.
                then_put (put_integer response.error_status) _ b₄ whole at₃ le₄
                  (put_integer-Answers response.error_status b₃ at₃ w₃)
                  λ at₄ w₄.
                    then_put (put_integer request.id) _ b₅ whole at₄ le₅
                      (put_integer-Answers request.id b₄ at₄ w₄)
                      λ at₅ w₅.
                        then_put (put_header Ber.snmp_response) _ b₆ whole at₅ le₆
                          (put_header-Answers Ber.snmp_response b₅ at₅ w₅)
                          λ at₆ w₆.
                            then_put
                              (put (get_string_length request.community)
                                (encode_snmp_string request.community).1)
                              _ b₇ whole at₆ le₇
                              (put_string-Answers request.community b₆ at₆ short w₆)
                              λ at₇ w₇.
                                then_put (put_integer request.version) _ b₈ whole at₇ le₈
                                  (put_integer-Answers request.version b₇ at₇ w₇)
                                  λ at₈ w₈.
                                    then_put (put_header Ber.sequence) _ whole whole at₈
                                      (le_refl (length whole))
                                      (put_header-Answers Ber.sequence b₈ at₈ w₈)
                                      λ at₉ w₉. move_to_start-Carries whole at₉ w₉)
  where
    b₁ : List ℕ
    b₁ = varbinds_bytes values

    b₂ : List ℕ
    b₂ = element Ber.sequence b₁

    b₃ : List ℕ
    b₃ = (encode_snmp_integer response.error_index).1 ++ b₂

    b₄ : List ℕ
    b₄ = (encode_snmp_integer response.error_status).1 ++ b₃

    b₅ : List ℕ
    b₅ = pdu_bytes request response values

    b₆ : List ℕ
    b₆ = element Ber.snmp_response b₅

    b₇ : List ℕ
    b₇ = (encode_snmp_string request.community).1 ++ b₆

    b₈ : List ℕ
    b₈ = (encode_snmp_integer request.version).1 ++ b₇

    whole : List ℕ
    whole = message_bytes request response values

    le₈ : length b₈ ≤ length whole
    le₈ = length-le-append (encode_snmp_sequence_header (length b₈) Ber.sequence).1 b₈

    le₇ : length b₇ ≤ length whole
    le₇ = le_trans (length-le-append (encode_snmp_integer request.version).1 b₇) le₈

    le₆ : length b₆ ≤ length whole
    le₆ = le_trans (length-le-append (encode_snmp_string request.community).1 b₆) le₇

    le₅ : length b₅ ≤ length whole
    le₅ =
        le_trans (length-le-append (encode_snmp_sequence_header (length b₅) Ber.snmp_response).1 b₅)
          le₆

    le₄ : length b₄ ≤ length whole
    le₄ = le_trans (length-le-append (encode_snmp_integer request.id).1 b₄) le₅

    le₃ : length b₃ ≤ length whole
    le₃ = le_trans (length-le-append (encode_snmp_integer response.error_status).1 b₃) le₄

    le₂ : length b₂ ≤ length whole
    le₂ = le_trans (length-le-append (encode_snmp_integer response.error_index).1 b₂) le₃

    le₁ : length b₁ ≤ length whole
    le₁ =
        le_trans (length-le-append (encode_snmp_sequence_header (length b₁) Ber.sequence).1 b₁) le₂
