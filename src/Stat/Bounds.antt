-- ===== src/Stat/Bounds.antt =====
-- The numbers that lib/StatParser.cpp takes from a P-line fit the types of the results.
use mathlib.Core.Path.{subst}
use libfc.Prelude.{
  ℕ, ◌≡◌, ◌≤◌, sym, ap, ◌∙◌, arith, refl, Bool, true, false, List, [], ◌∷◌, Option, none, some, leb,
  leb→le, if◌then◌else◌,
}
use libfc.Info.Decimal.{read_digits}
use libfc.Stat.Line.{
  ◌>>=◌, Packet, skip_spaces, expect_gap, parse_digits, parse_uint16, parse_uint8, take_delim,
  skip_time, parse_address, parse_p,
}
use libfc.Stat.Numbers.{parse_digits-read_digits}
use libfc.Stat.Printed.{IsPacket}

-- A chain that succeeds did so at its first call and behind it.
>>=-eq-some {ℓ κ} :
    {A : Type ℓ} {B : Type κ} (call : Option A) (next : A → Option B) {result : B}
    → (call >>= next) ≡ some result
    → (value : A) × (call ≡ some value) × (next value ≡ some result)
>>=-eq-some (some value) next h = (value, refl, h)
>>=-eq-some none next h = cc

if_some :
    (b : Bool) (r s : ℕ × List ℕ) → (if b then some r else none) ≡ some s → (b ≡ true) × (r ≡ s)
if_some true r s h = (refl, cc)
if_some false r s h = cc

parse_digits-le :
    (max : ℕ) (text rest : List ℕ) (value : ℕ)
    → 9 ≤ max
    → parse_digits max 0 text ≡ some (value, rest)
    → value ≤ max
parse_digits-le max text rest value l e =
    let exact = parse_digits-read_digits max 0 text l (omega arith) in
    let (fits, same) =
      if_some (leb (read_digits 0 text).0 max) (read_digits 0 text) (value, rest) (sym exact ∙ e) in
    rw⁻¹ (ap (λ r. r.0) same) (leb→le _ _ fits)

take_delim-same :
    (delim v value : ℕ) (left rest : List ℕ)
    → take_delim delim (v, left) ≡ some (value, rest)
    → v ≡ value
unfolding take_delim
take_delim-same delim v value [] rest e = cc
take_delim-same delim v value (c ∷ left) rest e = ground arith

parse_uint8-le :
    (delim : ℕ) (text rest : List ℕ) (value : ℕ)
    → parse_uint8 delim text ≡ some (value, rest)
    → value ≤ 255
unfolding parse_uint8
parse_uint8-le delim text rest value e =
    let ((v, left), d, t) = >>=-eq-some (parse_digits 255 0 text) (take_delim delim) e in
    let small = parse_digits-le 255 text left v (omega arith) d in
    rw⁻¹ (take_delim-same delim v value left rest t) small

end_of_line :
    (n port : ℕ) (address : ℕ × ℕ × ℕ × ℕ) (text : List ℕ) (p : Packet)
    → ◌≡◌ {A = Option Packet}
        (elim text [
          | [] ↦ some (record { length = n; source_address = address; port = port })
          | c ∷ cs ↦ none
        ])
        (some p)
    → ◌≡◌ {A = Packet} (record { length = n; source_address = address; port = port }) p
end_of_line n port address [] p h = cc
end_of_line n port address (c ∷ cs) p h = cc

parse_address-IsPacket :
    (n : ℕ) (text : List ℕ) (p : Packet) → n ≤ 65535 → parse_address n text ≡ some p → IsPacket p
unfolding parse_address parse_uint16
parse_address-IsPacket n text p l h =
    let ((a, text1), ea, h1) = >>=-eq-some (parse_uint8 b'.' text) _ h in
    let ((b, text2), eb, h2) = >>=-eq-some (parse_uint8 b'.' text1) _ h1 in
    let ((c, text3), ec, h3) = >>=-eq-some (parse_uint8 b'.' text2) _ h2 in
    let ((d, text4), ed, h4) = >>=-eq-some (parse_uint8 b':' text3) _ h3 in
    let ((port, text5), ep, h5) = >>=-eq-some (parse_digits 65535 0 text4) _ h4 in
    subst (λ q. IsPacket q) (end_of_line n port (a, b, c, d) (skip_spaces text5) p h5)
      (record {
        length_small = l;
        first_small = parse_uint8-le b'.' text text1 a ea;
        second_small = parse_uint8-le b'.' text1 text2 b eb;
        third_small = parse_uint8-le b'.' text2 text3 c ec;
        fourth_small = parse_uint8-le b':' text3 text4 d ed;
        port_small = parse_digits-le 65535 text4 text5 port (omega arith) ep;
      })

-- Whatever a P-line says, the length and the port that are taken from it fit 16 bits, and the octets of
-- the address 8 bits: no number wraps around.
pub parse_p-IsPacket : (text : List ℕ) (p : Packet) → parse_p text ≡ some p → IsPacket p
unfolding parse_p parse_uint16
parse_p-IsPacket text p h =
    let (size, es, h1) = >>=-eq-some (skip_time text) _ h in
    let ((n, text1), en, h2) = >>=-eq-some (parse_digits 65535 0 size) _ h1 in
    let (address, ea, h3) = >>=-eq-some (expect_gap text1) _ h2 in
    parse_address-IsPacket n address p (parse_digits-le 65535 size text1 n (omega arith) en) h3
