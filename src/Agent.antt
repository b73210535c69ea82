-- ===== src/Agent.antt =====
-- The interface functions of src/protocol.c: `snmp` and `snmp_packet_complete`.
pub mod Framing
pub mod Access
pub mod Lookup
pub mod Table
use open_wrt_sdk.Common.{
  ℕ, Bool, false, not, ◌||◌, List, [], ltb, ◌==◌, if◌then◌else◌, ◌=ℤ◌, bytes_eq, ℤ,
}
use open_wrt_sdk.Types.{
  snmp_version_2c, status_ok, status_gen_err, status_no_access, Value, Request, Response, Client,
}
use open_wrt_sdk.Ber
use open_wrt_sdk.Outcome.{Outcome, ok, ◌>>=◌, ◌>>◌, require}
use open_wrt_sdk.Decode.{decode_snmp_element_type_length}
use open_wrt_sdk.Message.{bytes_left, decode_snmp_request}
use open_wrt_sdk.Encode.{encode_snmp_response}
use open_wrt_sdk.Handle.{handle_snmp_get, handle_snmp_getnext, handle_snmp_set, handle_snmp_getbulk}

-- `true` for 1, `false` for 0, and `fail` for -1.
unfoldable pub snmp_packet_complete : Client → Outcome Bool
snmp_packet_complete client = if ltb client.size 25 then ok false else (do
  (type, len, pos) ← decode_snmp_element_type_length client.packet client.size 0
  require (not (not (type == Ber.sequence) || len == 0 || ltb (bytes_left client.size pos) len))
  ok (bytes_left client.size pos == len))

-- The globals that `snmp` reads: `g_community`, `g_auth` and the used part of `g_mib`.
pub record Globals : Type 0 where
  pub community : List ℕ
  pub auth : Bool
  pub mib : List Value

abbrev pub empty_response : Response
empty_response = record { error_status = status_ok; error_index = ℤ.pos 0; value_list = [] }

abbrev pub error_response : ℤ → Response
error_response status = record { error_status = status; error_index = ℤ.pos 0; value_list = [] }

-- The code from the label `done` on.
abbrev pub reply : Request → Client → Response → Outcome Client
reply request client response = encode_snmp_response request response client

-- The `switch`; `none` of its cases is the request that is ignored.
unfoldable pub handle_request : Globals → Request → Client → Outcome Client
handle_request g request client =
    if request.type == Ber.snmp_get
    then handle_snmp_get g.mib request empty_response >>= reply request client
    else if request.type == Ber.snmp_getnext
    then handle_snmp_getnext g.mib request empty_response >>= reply request client
    else if request.type == Ber.snmp_set
    then handle_snmp_set request empty_response >>= reply request client
    else if request.type == Ber.snmp_getbulk
    then handle_snmp_getbulk g.mib request empty_response >>= reply request client
    else ok (record client { size = 0 })

unfoldable pub snmp : Globals → Client → Outcome Client
snmp g client = do
  request ← decode_snmp_request client
  if request.version =ℤ snmp_version_2c
      then (if bytes_eq g.community request.community
          then handle_request g request client
          else encode_snmp_response request (error_response status_no_access) client)
      else (if g.auth
          then encode_snmp_response request (error_response status_gen_err) client
          else handle_request g request client)
