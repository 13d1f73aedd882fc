-- ===== src/Wire.antt =====
-- Numbers in network byte order: lib/decode_util.cpp and the encode16 and encode32 of
-- lib/PlacementExporter.cpp.
use libfc.Prelude.{ℕ, ◌+◌, ◌*◌, ◌/◌, ◌%◌, ◌^◌, ◌<◌, ◌≡◌, arith, List, [], ◌∷◌}

-- decode_uint16 and decode_uint32, at the octets they read.
unfoldable pub decode_uint16 : ℕ → ℕ → ℕ
decode_uint16 b0 b1 = b0 * 2 ^ 8 + b1

unfoldable pub decode_uint32 : ℕ → ℕ → ℕ → ℕ → ℕ
decode_uint32 b0 b1 b2 b3 = b0 * 2 ^ 24 + b1 * 2 ^ 16 + b2 * 2 ^ 8 + b3

-- The octets that encode16 and encode32 write; htons and htonl with memcpy write the same.
unfoldable pub encode16 : ℕ → List ℕ
encode16 val = val / 2 ^ 8 % 256 ∷ val % 256 ∷ []

unfoldable pub encode32 : ℕ → List ℕ
encode32 val = val / 2 ^ 24 % 256 ∷ val / 2 ^ 16 % 256 ∷ val / 2 ^ 8 % 256 ∷ val % 256 ∷ []

pub decode_uint16-encode16 :
    (val : ℕ) → val < 2 ^ 16 → decode_uint16 (val / 2 ^ 8 % 256) (val % 256) ≡ val
unfolding decode_uint16
decode_uint16-encode16 val h = omega arith

pub decode_uint32-encode32 :
    (val : ℕ)
    → val < 2 ^ 32
    → decode_uint32 (val / 2 ^ 24 % 256) (val / 2 ^ 16 % 256) (val / 2 ^ 8 % 256) (val % 256) ≡ val
unfolding decode_uint32
decode_uint32-encode32 val h = omega arith
