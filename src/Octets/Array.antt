-- ===== src/Octets/Array.antt =====
-- The octet array of lib/BasicOctetArray.cpp keeps its invariant and its content.
use libfc.Prelude.{
  [], ◌∷◌, ap, ℕ, ◌≤◌, ◌≡◌, arith, List, length, length-append, length-drop, take-append, take,
  drop, refl,
}
use libfc.Octets.{BasicOctetArray, copy_content, content}

-- The storage has the size of the capacity, and the content lies within it.
pub record IsValid (a : BasicOctetArray) : Type 0 where
  pub allocated : length a.buf ≡ a.capacity
  pub within : a.length ≤ a.capacity

take_all : (bytes : List ℕ) → take (length bytes) bytes ≡ bytes
take_all [] = refl
take_all (x ∷ bytes) = ap (◌∷◌ x) (take_all bytes)

-- On a valid array, copy_content leaves a valid array whose content is the octets it was given,
-- and whose capacity has not shrunk.
pub content-copy_content :
    (a : BasicOctetArray) (bytes : List ℕ)
    → IsValid a
    → IsValid (copy_content a bytes)
      × (content (copy_content a bytes) ≡ bytes)
      × (a.capacity ≤ (copy_content a bytes).capacity)
unfolding copy_content
content-copy_content a bytes v =
    let tail = length-drop (length bytes) a.buf in
    let joined = length-append bytes (drop (length bytes) a.buf) in
    (
      record { allocated = ground arith; within = ground arith },
      ground (arith, take-append (length bytes) bytes (drop (length bytes) a.buf), take_all bytes),
      ground arith,
    )
