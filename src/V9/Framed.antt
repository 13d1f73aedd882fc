-- ===== src/V9/Framed.antt =====
-- The scan of V9MessageStreamParser::parse over framed sets.
use mathlib.Core.List.{append-nil, append_assoc}
use mathlib.Core.Path.{subst}
use libfc.Prelude.{
  ℕ, zero, suc, ◌+◌, ◌^◌, ◌≡◌, ◌≤◌, ◌<◌, refl, ap, ◌∙◌, arith, List, [], ◌∷◌, ◌++◌, length, All, ok,
  length-append,
}
use libfc.Wire.{encode16}
use libfc.Ipfix.Source.{Buffer, buffer_source, read}
use libfc.Ipfix.Reading.{IsAt, read_lem, peek_lem}
use libfc.Ipfix.Sets.{length-set_octets, set_octets, all_sets, IsSmallSet}
use libfc.V9.Parser.{found, scan}
use libfc.V9.Scan.{IsSetId, scan_round}

abbrev pub IsV9Set : ℕ × List ℕ → Type 0
IsV9Set (id, content) = IsSetId id × (4 + length content < 2 ^ 16)

pub All-IsSmallSet : (sets : List (ℕ × List ℕ)) → All IsV9Set sets → All IsSmallSet sets
All-IsSmallSet [] v = tt
All-IsSmallSet ((id, content) ∷ sets) (v, vs) = ((v.0.small, v.1), All-IsSmallSet sets vs)

-- The scan ends before `rest`.
abbrev pub Ends : List ℕ → Type 0
Ends rest =
    (fuel : ℕ) (body : List ℕ) (src : Buffer)
    → IsAt src rest
    → scan buffer_source (suc fuel) body src ≡ ok (found body src)

-- A framed set is appended to the message whole.
scan_framed :
    (fuel id : ℕ) (content body rest : List ℕ) (src : Buffer)
    → IsV9Set (id, content)
    → 24 + length body + length (set_octets (id, content)) ≤ 65535
    → IsAt src (set_octets (id, content) ++ rest)
    → scan buffer_source (suc fuel) body src
      ≡ scan buffer_source fuel
          (body ++ set_octets (id, content))
          (read src (length (set_octets (id, content)))).1
unfolding encode16
scan_framed fuel id content body rest src v l a =
    let size = length-set_octets id content in
    let header = peek_lem src (encode16 id ++ encode16 (4 + length content)) (content ++ rest) a in
    scan_round fuel id (length (set_octets (id, content))) body (set_octets (id, content)) rest src
      v.0 refl l a (rw size header)

-- The scan finds the sets of a message, and stays behind them.
pub scan-all_sets :
    (sets : List (ℕ × List ℕ)) (fuel : ℕ) (body rest : List ℕ) (src : Buffer)
    → All IsV9Set sets
    → 24 + length body + length (all_sets sets) ≤ 65535
    → length sets < fuel
    → Ends rest
    → IsAt src (all_sets sets ++ rest)
    → (src' : Buffer) × (scan buffer_source fuel body src ≡ ok (found (body ++ all_sets sets) src'))
      × IsAt src' rest
scan-all_sets sets zero body rest src v fits l e a = absurd (omega arith)
scan-all_sets [] (suc fuel) body rest src v fits l e a =
    (src, rw (append-nil body) (e fuel body src a), a)
scan-all_sets ((id, content) ∷ sets) (suc fuel) body rest src v fits l e a =
    let set = set_octets (id, content) in
    let a' : IsAt src (set ++ (all_sets sets ++ rest)) =
      subst (λ octets. IsAt src octets) (append_assoc set (all_sets sets) rest) a in
    let left = (read_lem src set (all_sets sets ++ rest) a').1 in
    let total = length-append set (all_sets sets) in
    let part = length-append body set in
    let (src', found', at) =
      scan-all_sets sets fuel (body ++ set) rest (read src (length set)).1 v.1 (omega arith)
        (omega arith) e left in
    (
      src',
      scan_framed fuel id content body (all_sets sets ++ rest) src v.0 (omega arith) a'
          ∙ (found'
              ∙ ap (λ octets. ok (found octets src')) (append_assoc body set (all_sets sets))),
      at,
    )
