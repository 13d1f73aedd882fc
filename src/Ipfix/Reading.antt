-- ===== src/Ipfix/Reading.antt =====
-- lib/BufferInputSource.cpp: what a read gives and what it leaves.
use libfc.Prelude.{
  ℕ, zero, suc, ◌+◌, ◌-◌, ◌≡◌, ◌≤◌, refl, sym, ◌∙◌, ap, le→not_ltb, arith, false, List, [], ◌++◌,
  ltb, if◌then◌else◌, length, length-append, length-drop, take, drop, take-append, drop-append,
  drop-drop,
}
use libfc.Ipfix.Source.{Buffer, buffer, peek, read, advance}

-- The octets that are still to be read.
pub record IsAt (s : Buffer) (rest : List ℕ) : Type 0 where
  pub ahead : drop s.off s.buf ≡ rest
  pub within : s.off ≤ length s.buf

pub buffer-IsAt : (bytes : List ℕ) → IsAt (buffer bytes) bytes
buffer-IsAt bytes = record { ahead = refl; within = omega arith }

-- Where enough octets are left, peek gives the first of them.
pub peek_lem : (s : Buffer) (xs ys : List ℕ) → IsAt s (xs ++ ys) → peek s (length xs) ≡ xs
unfolding peek
peek_lem s xs ys v =
    let size = length-drop s.off s.buf in
    let enough : ltb (length s.buf) (s.off + length xs) ≡ false =
      grind (arith, le→not_ltb, length-append xs ys, size, v.ahead, v.within) in
    rw (enough, peek, v.ahead) (take-append (length xs) xs ys refl)

-- A read of so many octets as `xs` has gives `xs`, where these are ahead, and leaves what follows.
pub read_lem :
    (s : Buffer) (xs ys : List ℕ)
    → IsAt s (xs ++ ys)
    → ((read s (length xs)).0 ≡ xs) × IsAt (read s (length xs)).1 ys
unfolding read
read_lem s xs ys v =
    let got = peek_lem s xs ys v in
    let size = length-drop s.off s.buf in
    let total = length-append xs ys in
    let next : drop (s.off + length xs) s.buf ≡ ys =
      sym (drop-drop s.off (length xs) (s.off + length xs) s.buf refl)
      ∙ (ap (drop (length xs)) v.ahead ∙ drop-append (length xs) xs ys refl) in
    (
      got,
      record {
        ahead = rw got next;
        within = rw got (grind (arith, size, total, v.ahead, v.within));
      },
    )

take_nil : (n : ℕ) → take {A = ℕ} n [] ≡ []
take_nil zero = refl
take_nil (suc n) = refl

-- At the end a read gives nothing.
pub read_end : (s : Buffer) (n : ℕ) → IsAt s [] → (read s n).0 ≡ []
unfolding read peek
read_end s n v =
    let k = if ltb (length s.buf) (s.off + n) then length s.buf - s.off else n in
    ap (take k) v.ahead ∙ take_nil k

pub advance-IsAt : (s : Buffer) (rest : List ℕ) → IsAt s rest → IsAt (advance s) rest
unfolding advance
advance-IsAt s rest v = record { ahead = v.ahead; within = v.within }

pub peek_end : (s : Buffer) (n : ℕ) → IsAt s [] → peek s n ≡ []
unfolding peek
peek_end s n v =
    let k = if ltb (length s.buf) (s.off + n) then length s.buf - s.off else n in
    ap (take k) v.ahead ∙ take_nil k
