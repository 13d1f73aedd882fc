-- ===== src/Sources/File.antt =====
-- Files that hold a sequence of messages, as lib/FileInputSource.cpp and lib/TCPInputSource.cpp read them.
use mathlib.Core.Path.{subst}
use libfc.Prelude.{
  ℕ, zero, suc, ◌+◌, ◌-◌, ◌≡◌, ◌≤◌, ◌<◌, refl, sym, ap, ◌∙◌, arith, List, [], ◌∷◌, some, ltb,
  length, length-drop, length-take, take, drop, drop-drop, All, Bool-cases, inl, inr, ltb→lt,
}
use libfc.Errors.{◌>=>◌}
use libfc.Ipfix.Source.{Buffer, buffer, buffer_source, peek, read, advance}
use libfc.Ipfix.Content.{ContentHandler}
use libfc.Ipfix.Parser.{parse}
use libfc.Ipfix.Stream.{Message, IsSmall, all_messages, deliver_messages, parse-all_messages}
use libfc.Sources.Base.{
  System, Offsets, start, file_read, tcp_read, advance_message_offset, file_source, tcp_source,
}
use libfc.Sources.Same.{Simulates, parse-same}

take_all : (n : ℕ) (xs : List ℕ) → length xs ≤ n → take n xs ≡ xs
take_all zero [] l = refl
take_all zero (x ∷ xs) l = absurd (omega arith)
take_all (suc n) [] l = refl
take_all (suc n) (x ∷ xs) l = ap (λ ys. x ∷ ys) (take_all n xs (omega arith))

drop_all : (n : ℕ) (xs : List ℕ) → length xs ≤ n → drop n xs ≡ []
drop_all zero [] l = refl
drop_all zero (x ∷ xs) l = absurd (omega arith)
drop_all (suc n) [] l = refl
drop_all (suc n) (x ∷ xs) l = drop_all n xs (omega arith)

peek_take : (b : Buffer) (n : ℕ) → b.off ≤ length b.buf → peek b n ≡ take n (drop b.off b.buf)
unfolding peek
peek_take b n l =
    let rest = drop b.off b.buf in
    let size : length rest ≡ length b.buf - b.off = length-drop b.off b.buf in
    elim (Bool-cases (ltb (length b.buf) (b.off + n))) [
      | inr e ↦ rw (e, peek) refl
      | inl e ↦
          let short = ltb→lt (length b.buf) (b.off + n) e in
          rw (e, peek)
            (take_all (length b.buf - b.off) rest (omega arith)
              ∙ sym (take_all n rest (omega arith)))
    ]

-- How far the octets that were taken reach.
drop_taken :
    (n off : ℕ) (buf : List ℕ)
    → off ≤ length buf
    → (drop (off + length (take n (drop off buf))) buf ≡ drop n (drop off buf))
      × (off + length (take n (drop off buf)) ≤ length buf)
drop_taken n off buf l =
    let rest = drop off buf in
    let size : length rest ≡ length buf - off = length-drop off buf in
    elim (Bool-cases (ltb (length rest) n)) [
      | inl e ↦
          let short = ltb→lt (length rest) n e in
          let whole = take_all n rest (omega arith) in
          (
            rw whole (
                drop_all (off + length rest) buf (omega arith)
                ∙ sym (drop_all n rest (omega arith))),
            rw whole (omega arith),
          )
      | inr e ↦
          let enough : n ≤ length rest = ground arith in
          let taken = length-take n rest enough in
          (rw taken (sym (drop-drop off n (off + n) buf refl)), rw taken (omega arith))
    ]

-- A buffer gives as many octets as are asked for, or what is left, and moves behind them.
read_take :
    (b : Buffer) (n : ℕ)
    → b.off ≤ length b.buf
    → ((read b n).0 ≡ take n (drop b.off b.buf))
      × (drop (read b n).1.off b.buf ≡ drop n (drop b.off b.buf))
      × ((read b n).1.off ≤ length b.buf)
unfolding read
read_take b n l =
    let p = peek_take b n l in
    let (behind, within) = drop_taken n b.off b.buf l in (p, rw p behind, rw p within)

-- A regular file: the octets ahead, which a read gives as far as it is asked for them.
pub record IsFile (sys : System) (Ahead : sys.State → List ℕ → Type 0) : Type 0 where
  pub given :
      (os : sys.State) (rest : List ℕ) (n : ℕ)
      → Ahead os rest
      → (sys.read os n).0 ≡ some (take n rest)
  pub left :
      (os : sys.State) (rest : List ℕ) (n : ℕ)
      → Ahead os rest
      → Ahead (sys.read os n).1 (drop n rest)

-- A file and a buffer with the same octets ahead.
module _ (sys : System) (Ahead : sys.State → List ℕ → Type 0) (file : IsFile sys Ahead) where
  abbrev Alike : Offsets sys → Buffer → Type 0
  Alike s b = Ahead s.os (drop b.off b.buf) × (b.off ≤ length b.buf)

  read_same :
      (os : sys.State) (b : Buffer) (n : ℕ)
      → Ahead os (drop b.off b.buf)
      → b.off ≤ length b.buf
      → ((sys.read os n).0 ≡ some (read b n).0)
        × Ahead (sys.read os n).1 (drop (read b n).1.off (read b n).1.buf)
        × ((read b n).1.off ≤ length (read b n).1.buf)
  unfolding read
  read_same os b n a l =
      let rest = drop b.off b.buf in
      let (got, behind, within) = read_take b n l in
      (
        file.given os rest n a ∙ ap some (sym got),
        subst (λ xs. Ahead (sys.read os n).1 xs) (sym behind) (file.left os rest n a),
        within,
      )

  file-Simulates : Simulates (file_source sys) buffer_source Alike
  unfolding file_read advance_message_offset advance
  file-Simulates = record {
    read_same = λ s b n (a, l). (read_same s.os b n a l).0;
    read_alike =
        λ s b n (a, l). let (got, ahead, within) = read_same s.os b n a l in (ahead, within);
    advance_alike = λ s b (a, l). (a, l);
  }

  tcp-Simulates : Simulates (tcp_source sys) buffer_source Alike
  unfolding tcp_read advance_message_offset advance
  tcp-Simulates = record {
    read_same = λ s b n (a, l). (read_same s.os b n a l).0;
    read_alike =
        λ s b n (a, l). let (got, ahead, within) = read_same s.os b n a l in (ahead, within);
    advance_alike = λ s b (a, l). (a, l);
  }

  -- The parser over a file that holds a sequence of messages hands over every message, as it does over a
  -- buffer, whether the descriptor is a file's or a socket's, provided that every read of the system
  -- gives as many octets as are asked for, or all that are left.
  pub file_parse-all_messages :
      (ch : ContentHandler) (ms : List Message) (fuel : ℕ) (os : sys.State) (h : ch.State)
      → All IsSmall ms
      → length ms < fuel
      → Ahead os (all_messages ms)
      → (parse (file_source sys) ch fuel (start sys os) h
          ≡ ch.start_session h >=> deliver_messages ch ms)
        × (parse (tcp_source sys) ch fuel (start sys os) h
            ≡ ch.start_session h >=> deliver_messages ch ms)
  file_parse-all_messages ch ms fuel os h v l a =
      let b = buffer (all_messages ms) in
      let whole = parse-all_messages ch ms fuel h v l in
      let within : 0 ≤ length b.buf = omega arith in
      (
        parse-same (file_source sys) buffer_source Alike file-Simulates ch fuel (start sys os) b h
              (a, within)
            ∙ whole,
        parse-same (tcp_source sys) buffer_source Alike tcp-Simulates ch fuel (start sys os) b h
              (a, within)
            ∙ whole,
      )
