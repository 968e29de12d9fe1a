-- ===== src/Asn1/Tag.antt =====
-- The identifier octets of include/sdcrypt/asn1.h that the code writes or expects.
use Prim.Native.Nat.{ℕ}

abbrev pub boolean : ℕ
boolean = 0x01

abbrev pub integer : ℕ
integer = 0x02

abbrev pub bit_string : ℕ
bit_string = 0x03

abbrev pub octet_string : ℕ
octet_string = 0x04

abbrev pub null : ℕ
null = 0x05

abbrev pub object_id : ℕ
object_id = 0x06

abbrev pub utf8_string : ℕ
utf8_string = 0x0c

abbrev pub utc_time : ℕ
utc_time = 0x17

abbrev pub generalized_time : ℕ
generalized_time = 0x18

abbrev pub sequence : ℕ
sequence = 0x30

abbrev pub set : ℕ
set = 0x31
