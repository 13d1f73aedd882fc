-- ===== src/Info/Names.antt =====
-- The names of the types in lib/IEType.cpp, and InfoModel::lookupIEType.
use libfc.Prelude.{
  ℕ, ◌≡◌, ◌≢◌, refl, true, false, List, [], ◌∷◌, Option, none, some, codes, same_text,
}
use libfc.Info.Types.{
  IeType, octet_array, unsigned8, unsigned16, unsigned32, unsigned64, signed8, signed16, signed32,
  signed64, float32, float64, boolean, mac_address, string, date_time_seconds,
  date_time_milliseconds, date_time_microseconds, date_time_nanoseconds, ipv4_address, ipv6_address,
  unknown,
}

-- IEType::name.
unfoldable pub type_name : IeType → List ℕ
type_name octet_array = codes "octetArray"
type_name unsigned8 = codes "unsigned8"
type_name unsigned16 = codes "unsigned16"
type_name unsigned32 = codes "unsigned32"
type_name unsigned64 = codes "unsigned64"
type_name signed8 = codes "signed8"
type_name signed16 = codes "signed16"
type_name signed32 = codes "signed32"
type_name signed64 = codes "signed64"
type_name float32 = codes "float32"
type_name float64 = codes "float64"
type_name boolean = codes "boolean"
type_name mac_address = codes "macAddress"
type_name string = codes "string"
type_name date_time_seconds = codes "dateTimeSeconds"
type_name date_time_milliseconds = codes "dateTimeMilliseconds"
type_name date_time_microseconds = codes "dateTimeMicroseconds"
type_name date_time_nanoseconds = codes "dateTimeNanoseconds"
type_name ipv4_address = codes "ipv4Address"
type_name ipv6_address = codes "ipv6Address"
type_name unknown = codes "unknown"

-- The types that InfoModel::initTypes registers: all but `unknown`.
abbrev pub init_types : List IeType
init_types =
    octet_array ∷ unsigned8 ∷ unsigned16 ∷ unsigned32 ∷ unsigned64 ∷ signed8 ∷ signed16 ∷ signed32
    ∷ signed64 ∷ float32 ∷ float64 ∷ boolean ∷ mac_address ∷ string ∷ date_time_seconds
    ∷ date_time_milliseconds ∷ date_time_microseconds ∷ date_time_nanoseconds ∷ ipv4_address
    ∷ ipv6_address ∷ []

unfoldable pub find_type : List IeType → List ℕ → Option IeType
find_type [] name = none
find_type (t ∷ ts) name = elim (same_text (type_name t) name) [
  | true ↦ some t
  | false ↦ find_type ts name
]

-- InfoModel::lookupIEType by name, where `none` is a null pointer.
unfoldable pub lookup_ie_type : List ℕ → Option IeType
lookup_ie_type name = find_type init_types name

-- A type that is registered is found by its name.
pub lookup_ie_type-type_name : (t : IeType) → t ≢ unknown → lookup_ie_type (type_name t) ≡ some t
unfolding lookup_ie_type find_type type_name same_text
lookup_ie_type-type_name octet_array h = refl
lookup_ie_type-type_name unsigned8 h = refl
lookup_ie_type-type_name unsigned16 h = refl
lookup_ie_type-type_name unsigned32 h = refl
lookup_ie_type-type_name unsigned64 h = refl
lookup_ie_type-type_name signed8 h = refl
lookup_ie_type-type_name signed16 h = refl
lookup_ie_type-type_name signed32 h = refl
lookup_ie_type-type_name signed64 h = refl
lookup_ie_type-type_name float32 h = refl
lookup_ie_type-type_name float64 h = refl
lookup_ie_type-type_name boolean h = refl
lookup_ie_type-type_name mac_address h = refl
lookup_ie_type-type_name string h = refl
lookup_ie_type-type_name date_time_seconds h = refl
lookup_ie_type-type_name date_time_milliseconds h = refl
lookup_ie_type-type_name date_time_microseconds h = refl
lookup_ie_type-type_name date_time_nanoseconds h = refl
lookup_ie_type-type_name ipv4_address h = refl
lookup_ie_type-type_name ipv6_address h = refl
lookup_ie_type-type_name unknown h = absurd (h refl)
