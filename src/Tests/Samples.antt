-- ===== src/Tests/Samples.antt =====
-- The inputs of the tests: a GET of version 2c for sysDescr.0, and a small MIB.
use open_wrt_sdk.Common.{ℕ, ◌-◌, List, [], ◌∷◌, ◌++◌, length, zeros, false, ℤ}
use open_wrt_sdk.Types.{max_packet_size, Oid, Value, Request, Client}
use open_wrt_sdk.Ber
use open_wrt_sdk.Agent.{Globals}

abbrev pub community : List ℕ
community = 0x70 ∷ 0x75 ∷ 0x62 ∷ 0x6c ∷ 0x69 ∷ 0x63 ∷ []

abbrev pub sys_descr : Oid
sys_descr = record { subid_list = 1 ∷ 3 ∷ 6 ∷ 1 ∷ 2 ∷ 1 ∷ 1 ∷ 1 ∷ 0 ∷ []; encoded_length = 10 }

abbrev pub sys_up_time : Oid
sys_up_time = record { subid_list = 1 ∷ 3 ∷ 6 ∷ 1 ∷ 2 ∷ 1 ∷ 1 ∷ 3 ∷ 0 ∷ []; encoded_length = 10 }

abbrev pub sys_descr_value : Value
sys_descr_value = record {
  oid = sys_descr;
  content = record { buffer = 0x04 ∷ 0x01 ∷ 0x78 ∷ []; max_length = 3; encoded_length = 3 };
}

abbrev pub sys_up_time_value : Value
sys_up_time_value = record {
  oid = sys_up_time;
  content = record { buffer = 0x43 ∷ 0x01 ∷ 0x07 ∷ []; max_length = 3; encoded_length = 3 };
}

abbrev pub mib : List Value
mib = sys_descr_value ∷ sys_up_time_value ∷ []

abbrev pub globals : Globals
globals = record { community = community; auth = false; mib = mib }

abbrev pub request : ℕ → ℤ → List Oid → Request
request type version oids = record {
  community = community;
  type = type;
  version = version;
  id = ℤ.pos 42;
  non_repeaters = ℤ.pos 0;
  max_repetitions = ℤ.pos 0;
  oid_list = oids;
}

-- The bytes of the request for sysDescr.0, by the type of the request.
abbrev pub request_bytes : ℕ → List ℕ
request_bytes type =
    0x30 ∷ 0x26 ∷ 0x02 ∷ 0x01 ∷ 0x01 ∷ 0x04 ∷ 0x06 ∷ community
    ++ (type ∷ 0x19 ∷ 0x02 ∷ 0x01 ∷ 0x2a ∷ 0x02 ∷ 0x01 ∷ 0x00 ∷ 0x02 ∷ 0x01 ∷ 0x00 ∷ 0x30 ∷ 0x0e
        ∷ 0x30 ∷ 0x0c ∷ 0x06 ∷ 0x08 ∷ 0x2b ∷ 0x06 ∷ 0x01 ∷ 0x02 ∷ 0x01 ∷ 0x01 ∷ 0x01 ∷ 0x00 ∷ 0x05
        ∷ 0x00 ∷ [])

abbrev pub get_bytes : List ℕ
get_bytes = request_bytes Ber.snmp_get

abbrev pub getnext_bytes : List ℕ
getnext_bytes = request_bytes Ber.snmp_getnext

-- A client that has received the bytes.
abbrev pub received : List ℕ → Client
received bytes = record {
  packet = bytes ++ zeros (max_packet_size - length bytes);
  size = length bytes;
}
