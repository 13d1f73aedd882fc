-- ===== src/Sources/Udp.antt =====
-- lib/UDPInputSource.cpp, over what recvfrom gives.
use libfc.Prelude.{
  ℕ, ◌+◌, ◌≡◌, refl, Bool, true, false, List, [], Option, none, some, leb, ◌==◌, length, take, drop,
  if◌then◌else◌,
}
use libfc.Ipfix.Source.{InputSource}
use libfc.Sources.Base.{System}

-- `packet` is what packet_buffer holds up to packet_lenght, and `none` for a length of -1.
pub record UdpSource (sys : System) : Type 0 where
  pub os : sys.State
  pub packet : Option (List ℕ)
  pub packet_read : ℕ

-- The size of packet_buffer.
abbrev pub packet_size : ℕ
packet_size = 4096

-- `packet_read == packet_lenght`.
abbrev pub is_used_up : Option (List ℕ) → ℕ → Bool
is_used_up none packet_read = false
is_used_up (some packet) packet_read = packet_read == length packet

module _ (sys : System) where
  abbrev pub udp_start : sys.State → UdpSource sys
  udp_start os = record { os = os; packet = some []; packet_read = 0 }

  -- The call of recvfrom.
  unfoldable pub receive : UdpSource sys → UdpSource sys
  receive s =
      let (ret, os') = sys.read s.os packet_size in
      record { os = os'; packet = ret; packet_read = 0 }

  -- The copy out of the packet, if it holds enough.
  unfoldable pub copy_out : Option (List ℕ) → UdpSource sys → ℕ → Option (List ℕ) × UdpSource sys
  copy_out none s len = (none, s)
  copy_out (some packet) s len =
      if leb (s.packet_read + len) (length packet)
      then (
        some (take len (drop s.packet_read packet)),
        record s { packet_read = s.packet_read + len },
      )
      else (none, s)

  -- UDPInputSource::read.
  unfoldable pub udp_read : UdpSource sys → ℕ → Option (List ℕ) × UdpSource sys
  udp_read s len =
      let s1 = if is_used_up s.packet s.packet_read then receive s else s in
      copy_out s1.packet s1 len

  -- UDPInputSource::resync.
  unfoldable pub resync : UdpSource sys → UdpSource sys
  resync s = record s { packet = some []; packet_read = 0 }

  abbrev pub udp_source : InputSource
  udp_source = record {
    State = UdpSource sys;
    read = udp_read;
    peek = λ s n. none;
    can_peek = false;
    advance_message_offset = λ s. s;
  }

  -- Where the packet is used up and recvfrom fails, the read is an error, and the source never receives
  -- again, since the length -1 is not what has been read: every further read is an error that
  -- changes nothing, whatever it asks for.
  pub udp_read_stuck :
      (s : UdpSource sys) (len more : ℕ)
      → is_used_up s.packet s.packet_read ≡ true
      → (sys.read s.os packet_size).0 ≡ none
      → ((udp_read s len).0 ≡ none)
        × (udp_read (udp_read s len).1 more ≡ (none, (udp_read s len).1))
  unfolding udp_read receive copy_out
  udp_read_stuck s len more u e = rw (u, e, udp_read) (refl, refl)
