-- ===== src/Sources/Offsets.antt =====
-- What lib/TCPInputSource.cpp makes of the offsets, and of reads that give less than was asked for.
use libfc.Prelude.{ℕ, suc, ◌≡◌, ◌<◌, refl, arith, List, [], ◌∷◌, Option, none, some, lt→ltb, length}
use libfc.Errors.{return_error, recoverable, short_header, ◌>=>◌, >=>-cong}
use libfc.Ipfix.Content.{ContentHandler}
use libfc.Ipfix.Parser.{parse_message, parse_messages, parse}
use libfc.Sources.Base.{System, Offsets, added, tcp_read, advance_message_offset, tcp_source}

-- Both offsets are 0, as the constructor sets them.
pub record IsAtZero (sys : System) (s : Offsets sys) : Type 0 where
  pub message_zero : s.message_offset ≡ 0
  pub current_zero : s.current_offset ≡ 0

added_zero : (ret : Option (List ℕ)) (step : ℕ) → step ≡ 0 → added ret step ≡ 0
added_zero none step e = refl
added_zero (some []) step e = refl
added_zero (some (b ∷ bs)) step e = e

-- TCPInputSource::read adds the offset of the message to the current offset, instead of the number of
-- octets that it has read: after any read and any end of a message both offsets are still 0.
pub tcp_read-IsAtZero :
    (sys : System) (s : Offsets sys) (n : ℕ)
    → IsAtZero sys s
    → IsAtZero sys (tcp_read sys s n).1
      × IsAtZero sys (advance_message_offset sys (tcp_read sys s n).1)
unfolding tcp_read advance_message_offset
tcp_read-IsAtZero sys s n v =
    let none_added = added_zero (sys.read s.os n).0 s.message_offset v.message_zero in
    (
      record {
        message_zero = v.message_zero;
        current_zero = omega (arith, none_added, v.current_zero);
      },
      record {
        message_zero = omega (arith, none_added, v.message_zero, v.current_zero);
        current_zero = refl;
      },
    )

-- A source over a socket passes on what one read of the system gives. If the first one gives fewer octets
-- than a message header has, the parser refuses the stream, though the rest may be on its way.
pub parse_short_read :
    (sys : System) (ch : ContentHandler) (fuel b : ℕ) (bs : List ℕ) (s : Offsets sys) (h : ch.State)
    → (sys.read s.os 16).0 ≡ some (b ∷ bs)
    → length (b ∷ bs) < 16
    → parse (tcp_source sys) ch (suc fuel) s h
      ≡ ch.start_session h >=> return_error recoverable short_header
unfolding parse parse_messages parse_message tcp_read
parse_short_read sys ch fuel b bs s h e l =
    >=>-cong (ch.start_session h) _ _
      λ h'. rw (e, lt→ltb (length (b ∷ bs)) 16 l, parse_messages) refl
