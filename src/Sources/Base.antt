-- ===== src/Sources/Base.antt =====
-- lib/FileInputSource.cpp, lib/TCPInputSource.cpp and lib/WandioInputSource.cpp.
use libfc.Prelude.{ℕ, ◌+◌, List, [], ◌∷◌, Option, none, some, true, false, length}
use libfc.Ipfix.Source.{InputSource}

-- What reads a descriptor or a wandio handle: the octets, none of them at the end, or `none` for an
-- error, and for wandio those that a peek gives.
pub record System : Type 1 where
  pub State : Type 0
  pub read : State → ℕ → Option (List ℕ) × State
  pub peek : State → ℕ → Option (List ℕ)

-- The state of a source over it.
pub record Offsets (sys : System) : Type 0 where
  pub os : sys.State
  pub message_offset : ℕ
  pub current_offset : ℕ

-- The number of octets that a read gives, where it gives any.
abbrev pub count : Option (List ℕ) → ℕ
count none = 0
count (some bytes) = length bytes

-- `if (ret > 0) current_offset += step`.
abbrev pub added : Option (List ℕ) → ℕ → ℕ
added none step = 0
added (some []) step = 0
added (some (b ∷ bs)) step = step

module _ (sys : System) where
  abbrev pub start : sys.State → Offsets sys
  start os = record { os = os; message_offset = 0; current_offset = 0 }

  -- FileInputSource::read, which is also WandioInputSource::read.
  unfoldable pub file_read : Offsets sys → ℕ → Option (List ℕ) × Offsets sys
  file_read s len =
      let (ret, os') = sys.read s.os len in
      (ret, record s { os = os'; current_offset = s.current_offset + added ret (count ret) })

  -- TCPInputSource::read, which adds the offset of the message.
  unfoldable pub tcp_read : Offsets sys → ℕ → Option (List ℕ) × Offsets sys
  tcp_read s len =
      let (ret, os') = sys.read s.os len in
      (ret, record s { os = os'; current_offset = s.current_offset + added ret s.message_offset })

  -- advance_message_offset, the same in the three classes.
  unfoldable pub advance_message_offset : Offsets sys → Offsets sys
  advance_message_offset s = record s {
    message_offset = s.message_offset + s.current_offset;
    current_offset = 0;
  }

  -- InputSource::peek, which FileInputSource and TCPInputSource do not override, gives an error.
  abbrev pub file_source : InputSource
  file_source = record {
    State = Offsets sys;
    read = file_read;
    peek = λ s n. none;
    can_peek = false;
    advance_message_offset = advance_message_offset;
  }

  abbrev pub tcp_source : InputSource
  tcp_source = record {
    State = Offsets sys;
    read = tcp_read;
    peek = λ s n. none;
    can_peek = false;
    advance_message_offset = advance_message_offset;
  }

  abbrev pub wandio_source : InputSource
  wandio_source = record {
    State = Offsets sys;
    read = file_read;
    peek = λ s n. sys.peek s.os n;
    can_peek = true;
    advance_message_offset = advance_message_offset;
  }
