-- ===== src/V9/Scan.antt =====
-- The scan of V9MessageStreamParser::parse over the sets of a message in a buffer.
use libfc.Prelude.{
  ℕ, suc, ◌+◌, ◌^◌, ◌≡◌, ◌≤◌, ◌<◌, arith, refl, sym, true, false, List, [], ◌++◌, ltb, leb, ◌==◌,
  ==_refl, length, Outcome, some,
}
use libfc.Wire.{encode16, decode_uint16-encode16}
use libfc.Ipfix.Source.{Buffer, buffer_source, peek, read}
use libfc.Ipfix.Parser.{decode_set_header}
use libfc.Ipfix.Reading.{IsAt, read_lem}
use libfc.V9.Parser.{scan, scan_set, Scanned}

-- An ID that the scan does not take for the version of a message.
pub record IsSetId (id : ℕ) : Type 0 where
  pub small : id < 2 ^ 16
  pub not_v9 : (id == 9) ≡ false
  pub not_v5 : (id == 5) ≡ false

decode_set_header-header :
    (id n : ℕ)
    → id < 2 ^ 16
    → n < 2 ^ 16
    → decode_set_header (encode16 id ++ encode16 n) ≡ some (id, n, [])
unfolding decode_set_header encode16
decode_set_header-header id n a l =
    ground (arith, decode_uint16-encode16 id a, decode_uint16-encode16 n l)

-- A set of a length that the message has room for is taken whole.
scan_set_fits :
    (id n : ℕ) (body xs rest : List ℕ) (src : Buffer)
    (next : List ℕ → Buffer → Outcome (Scanned Buffer))
    → IsSetId id
    → length xs ≡ n
    → 24 + length body + n ≤ 65535
    → IsAt src (xs ++ rest)
    → scan_set buffer_source body src (id, n, []) next ≡ next (body ++ xs) (read src n).1
unfolding scan_set
scan_set_fits id n body xs rest src next v l fits a =
    let (got, left) = read_lem src xs rest a in
    let short : ltb 65535 (20 + length body + n) ≡ false = ground arith in
    let enough : leb (20 + length body + n + 4) 65535 ≡ true = ground arith in
    rw (v.not_v9, v.not_v5, short, scan_set, sym l, got, ==_refl (length xs), l, enough) refl

-- A round of the scan at such a set.
pub scan_round :
    (fuel id n : ℕ) (body xs rest : List ℕ) (src : Buffer)
    → IsSetId id
    → length xs ≡ n
    → 24 + length body + n ≤ 65535
    → IsAt src (xs ++ rest)
    → peek src 4 ≡ encode16 id ++ encode16 n
    → scan buffer_source (suc fuel) body src ≡ scan buffer_source fuel (body ++ xs) (read src n).1
unfolding scan
scan_round fuel id n body xs rest src v l fits a p =
    rw (p, decode_set_header-header id n v.small (omega arith), scan)
      (scan_set_fits id n body xs rest src (scan buffer_source fuel) v l fits a)
