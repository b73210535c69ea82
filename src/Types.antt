-- ===== src/Types.antt =====
-- The data of src/mini_snmpd.h: limits, status codes and the structs that the codecs and the
-- request handlers share. A list stands for the used part of an array, so that the length field
-- beside the array is the length of the list; a field of type `int` is an integer.
use open_wrt_sdk.Common.{ℕ, ◌^◌, List, ℤ, pos}

abbrev pub max_nr_clients : ℕ
max_nr_clients = 16

abbrev pub max_nr_oids : ℕ
max_nr_oids = 16

abbrev pub max_nr_subids : ℕ
max_nr_subids = 16

abbrev pub max_nr_values : ℕ
max_nr_values = 128

abbrev pub max_packet_size : ℕ
max_packet_size = 2048

abbrev pub max_string_size : ℕ
max_string_size = 64

-- The number of values of `size_t` (32 bits).
abbrev pub size_mod : ℕ
size_mod = 2 ^ 32

abbrev pub snmp_version_1 : ℤ
snmp_version_1 = pos 0

abbrev pub snmp_version_2c : ℤ
snmp_version_2c = pos 1

abbrev pub status_ok : ℤ
status_ok = pos 0

abbrev pub status_no_such_name : ℤ
status_no_such_name = pos 2

abbrev pub status_gen_err : ℤ
status_gen_err = pos 5

abbrev pub status_no_access : ℤ
status_no_access = pos 6

-- `oid_t`
pub record Oid : Type 0 where
  pub subid_list : List ℕ
  pub encoded_length : ℕ

-- `data_t`: `buffer` is the array that the pointer refers to.
pub record Data : Type 0 where
  pub buffer : List ℕ
  pub max_length : ℕ
  pub encoded_length : ℕ

-- `value_t`
pub record Value : Type 0 where
  pub oid : Oid
  pub content : Data

-- `request_t`
pub record Request : Type 0 where
  pub community : List ℕ
  pub type : ℕ
  pub version : ℤ
  pub id : ℤ
  pub non_repeaters : ℤ
  pub max_repetitions : ℤ
  pub oid_list : List Oid

-- `response_t`
pub record Response : Type 0 where
  pub error_status : ℤ
  pub error_index : ℤ
  pub value_list : List Value

-- `client_t`, as far as the protocol uses it: the whole packet array, and how much of it is used.
pub record Client : Type 0 where
  pub packet : List ℕ
  pub size : ℕ
