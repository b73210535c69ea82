-- ===== src/Ber.antt =====
-- The element types of src/mini_snmpd.h (BER_TYPE_*).
use open_wrt_sdk.Common.{ℕ}

abbrev pub boolean : ℕ
boolean = 0x01

abbrev pub integer : ℕ
integer = 0x02

abbrev pub bit_string : ℕ
bit_string = 0x03

abbrev pub octet_string : ℕ
octet_string = 0x04

abbrev pub null : ℕ
null = 0x05

abbrev pub oid : ℕ
oid = 0x06

abbrev pub sequence : ℕ
sequence = 0x30

abbrev pub counter : ℕ
counter = 0x41

abbrev pub gauge : ℕ
gauge = 0x42

abbrev pub time_ticks : ℕ
time_ticks = 0x43

abbrev pub no_such_object : ℕ
no_such_object = 0x80

abbrev pub no_such_instance : ℕ
no_such_instance = 0x81

abbrev pub end_of_mib_view : ℕ
end_of_mib_view = 0x82

abbrev pub snmp_get : ℕ
snmp_get = 0xa0

abbrev pub snmp_getnext : ℕ
snmp_getnext = 0xa1

abbrev pub snmp_response : ℕ
snmp_response = 0xa2

abbrev pub snmp_set : ℕ
snmp_set = 0xa3

abbrev pub snmp_getbulk : ℕ
snmp_getbulk = 0xa5

abbrev pub snmp_inform : ℕ
snmp_inform = 0xa6

abbrev pub snmp_trap : ℕ
snmp_trap = 0xa7
