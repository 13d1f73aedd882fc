-- ===== src/Octets.antt =====
-- lib/BasicOctetArray.cpp: a buffer of octets that grows, and the memory that decoding writes to.
-- The children Array and Typing prove.
pub mod Array
pub mod Typing
use libfc.Prelude.{
  ℕ, List, [], ◌++◌, ltb, leb, ◌==◌, if◌then◌else◌, length, take, drop, Outcome, ok, undefined,
}

-- `buf` is the allocated storage.
pub record BasicOctetArray : Type 0 where
  pub buf : List ℕ
  pub length : ℕ
  pub capacity : ℕ

-- The constructor.
abbrev pub empty : BasicOctetArray
empty = record { buf = []; length = 0; capacity = 0 }

-- BasicOctetArray::copy_content.
unfoldable pub copy_content : BasicOctetArray → List ℕ → BasicOctetArray
copy_content a bytes =
    if ltb a.capacity (length bytes)
    then record { buf = bytes; length = length bytes; capacity = length bytes }
    else record a { buf = bytes ++ drop (length bytes) a.buf; length = length bytes }

-- BasicOctetArray::to_string, as octets: what a reader of get_buf and get_length sees.
abbrev pub content : BasicOctetArray → List ℕ
content a = take a.length a.buf

-- An object at a placement: a native value by its octets, or an octet array.
pub data Cell : Type 0 where
  native : List ℕ → Cell
  octets : BasicOctetArray → Cell

-- Objects by their addresses.
abbrev pub Memory : Type 0
Memory = ℕ → Cell

abbrev pub update : Memory → ℕ → Cell → Memory
update m p c q = if p == q then c else m q

-- A write of some octets through a `uint8_t *`, and a call of copy_content through a
-- `BasicOctetArray *`: undefined outside an object, or at an object of another type.
unfoldable pub store : Memory → ℕ → List ℕ → Outcome Memory
store m p bytes = elim (m p) [
  | native old ↦
      if leb (length bytes) (length old)
      then ok (update m p (native (bytes ++ drop (length bytes) old)))
      else undefined
  | octets a ↦ undefined
]

unfoldable pub store_octets : Memory → ℕ → List ℕ → Outcome Memory
store_octets m p bytes = elim (m p) [
  | native old ↦ undefined
  | octets a ↦ ok (update m p (octets (copy_content a bytes)))
]
