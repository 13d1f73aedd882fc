-- ===== src/Info/Types.antt =====
-- lib/IEType.h, lib/IEType.cpp, lib/InfoElement.h and lib/InfoElement.cpp.
use libfc.Prelude.{ℕ, Bool, true, false, List, Option, leb, ◌==◌, ◌&&◌, ◌≡◌, arith}

-- The length that stands for a variable-length element.
abbrev pub ipfix_varlen : ℕ
ipfix_varlen = 65535

-- The static singletons of IEType, one constructor for each.
pub data IeType : Type 0 where
  octet_array unsigned8 unsigned16 unsigned32 unsigned64 : IeType
  signed8 signed16 signed32 signed64 float32 float64 boolean : IeType
  mac_address string date_time_seconds date_time_milliseconds : IeType
  date_time_microseconds date_time_nanoseconds ipv4_address ipv6_address : IeType
  unknown : IeType

-- IEType::number.
unfoldable pub number : IeType → ℕ
number octet_array = 0
number unsigned8 = 1
number unsigned16 = 2
number unsigned32 = 3
number unsigned64 = 4
number signed8 = 5
number signed16 = 6
number signed32 = 7
number signed64 = 8
number float32 = 9
number float64 = 10
number boolean = 11
number mac_address = 12
number string = 13
number date_time_seconds = 14
number date_time_milliseconds = 15
number date_time_microseconds = 16
number date_time_nanoseconds = 17
number ipv4_address = 18
number ipv6_address = 19
number unknown = 0

-- The minimal and the maximal length that the constructor of the singleton is given.
unfoldable pub minlen : IeType → ℕ
minlen octet_array = 0
minlen float32 = 4
minlen float64 = 4
minlen mac_address = 6
minlen string = 0
minlen date_time_seconds = 4
minlen date_time_milliseconds = 8
minlen date_time_microseconds = 8
minlen date_time_nanoseconds = 8
minlen ipv4_address = 4
minlen ipv6_address = 16
minlen unknown = 0
minlen _ = 1

unfoldable pub maxlen : IeType → ℕ
maxlen octet_array = ipfix_varlen
maxlen unsigned8 = 1
maxlen unsigned16 = 2
maxlen unsigned32 = 4
maxlen unsigned64 = 8
maxlen signed8 = 1
maxlen signed16 = 2
maxlen signed32 = 4
maxlen signed64 = 8
maxlen float32 = 4
maxlen float64 = 8
maxlen boolean = 8
maxlen mac_address = 6
maxlen string = ipfix_varlen
maxlen date_time_seconds = 4
maxlen date_time_milliseconds = 8
maxlen date_time_microseconds = 8
maxlen date_time_nanoseconds = 8
maxlen ipv4_address = 4
maxlen ipv6_address = 16
maxlen unknown = 0

-- IEType::isEndian: every class but OctetArrayType passes kEndian.
unfoldable pub is_endian : IeType → Bool
is_endian octet_array = false
is_endian mac_address = false
is_endian string = false
is_endian ipv6_address = false
is_endian unknown = false
is_endian _ = true

-- IEType::permitsLength.
unfoldable pub permits_length : IeType → ℕ → Bool
permits_length t len = leb (minlen t) len && leb len (maxlen t)

-- `address` is the object's address: the source compares and orders elements by pointer.
-- `ietype` is `none` for a null pointer.
pub record InfoElement : Type 0 where
  pub address : ℕ
  pub name : List ℕ
  pub pen : ℕ
  pub number : ℕ
  pub ietype : Option IeType
  pub len : ℕ

-- InfoElement::matches.
unfoldable pub matches : InfoElement → InfoElement → Bool
matches ie rhs = (rhs.pen == ie.pen) && (rhs.number == ie.number)

pub matches_refl : (ie : InfoElement) → matches ie ie ≡ true
unfolding matches
matches_refl ie = ground arith
