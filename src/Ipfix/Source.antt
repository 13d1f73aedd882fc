-- ===== src/Ipfix/Source.antt =====
-- lib/InputSource.h, and lib/BufferInputSource.cpp, which implements it.
use libfc.Prelude.{
  ℕ, ◌+◌, ◌-◌, List, Option, some, Bool, true, ltb, if◌then◌else◌, length, take, drop,
}

-- A source that is read in order. `read s n` gives the octets, or `none` for a read error, and so does
-- `peek`, which leaves them in the source.
pub record InputSource : Type 1 where
  pub State : Type 0
  pub read : State → ℕ → Option (List ℕ) × State
  pub peek : State → ℕ → Option (List ℕ)
  pub can_peek : Bool
  pub advance_message_offset : State → State

-- A buffer, whose length is that of `buf`.
pub record Buffer : Type 0 where
  pub buf : List ℕ
  pub off : ℕ
  pub message_offset : ℕ
  pub current_offset : ℕ

-- The constructor.
abbrev pub buffer : List ℕ → Buffer
buffer buf = record { buf = buf; off = 0; message_offset = 0; current_offset = 0 }

-- BufferInputSource::peek.
unfoldable pub peek : Buffer → ℕ → List ℕ
peek s result_len =
    let n = if ltb (length s.buf) (s.off + result_len) then length s.buf - s.off else result_len in
    take n (drop s.off s.buf)

-- BufferInputSource::read.
unfoldable pub read : Buffer → ℕ → List ℕ × Buffer
read s result_len =
    let bytes = peek s result_len in
    (
      bytes,
      record s { off = s.off + length bytes; current_offset = s.current_offset + length bytes },
    )

-- BufferInputSource::advance_message_offset.
unfoldable pub advance : Buffer → Buffer
advance s = record s { message_offset = s.message_offset + s.current_offset; current_offset = 0 }

abbrev pub buffer_source : InputSource
buffer_source = record {
  State = Buffer;
  read = λ s n. (some (read s n).0, (read s n).1);
  peek = λ s n. some (peek s n);
  can_peek = true;
  advance_message_offset = advance;
}
