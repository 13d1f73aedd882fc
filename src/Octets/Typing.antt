-- ===== src/Octets/Typing.antt =====
-- The type of the object at an address, which no write changes.
use libfc.Prelude.{
  ℕ, ◌≤◌, ◌≡◌, ◌≢◌, arith, List, ◌++◌, length, length-append, length-drop, ok, undefined, drop,
  Option, none, some,
}
use libfc.Octets.{Cell, native, octets, Memory, store, store_octets}

-- The size of a native object; `none` for an octet array.
abbrev pub shape : Cell → Option ℕ
shape (native bytes) = some (length bytes)
shape (octets a) = none

-- A native object of at least `n` octets; an octet array.
abbrev pub IsNative : ℕ → Option ℕ → Type 0
IsNative n (some k) = n ≤ k
IsNative n none = ⊥

abbrev pub IsOctets : Option ℕ → Type 0
IsOctets (some k) = ⊥
IsOctets none = Unit {0}

-- Every object of the first memory has its type in the second.
abbrev pub SameShapes : Memory → Memory → Type 0
SameShapes m m' = (q : ℕ) → shape (m' q) ≡ shape (m q)

length-overwrite :
    (bytes old : List ℕ)
    → length bytes ≤ length old
    → length (bytes ++ drop (length bytes) old) ≡ length old
length-overwrite bytes old h =
    omega (arith, length-append bytes (drop (length bytes) old), length-drop (length bytes) old)

pub shape-store :
    (m : Memory) (p : ℕ) (bytes : List ℕ) (m' : Memory) (q : ℕ)
    → store m p bytes ≡ ok m'
    → shape (m' q) ≡ shape (m q)
unfolding store
shape-store m p bytes m' q h = grind (arith, length-overwrite)

pub shape-store_octets :
    (m : Memory) (p : ℕ) (bytes : List ℕ) (m' : Memory) (q : ℕ)
    → store_octets m p bytes ≡ ok m'
    → shape (m' q) ≡ shape (m q)
unfolding store_octets
shape-store_octets m p bytes m' q h = ground arith

pub store_defined :
    (m : Memory) (p : ℕ) (bytes : List ℕ)
    → IsNative (length bytes) (shape (m p))
    → store m p bytes ≢ undefined
unfolding store
store_defined m p bytes h = ground arith

pub store_octets_defined :
    (m : Memory) (p : ℕ) (bytes : List ℕ)
    → IsOctets (shape (m p))
    → store_octets m p bytes ≢ undefined
unfolding store_octets
store_octets_defined m p bytes h = ground arith
