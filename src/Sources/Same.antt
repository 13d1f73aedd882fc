-- ===== src/Sources/Same.antt =====
-- Sources that give the same octets, under the parsers.
use libfc.Prelude.{
  length, ltb, leb, not, ◌==◌, ◌-◌, assert, ◌>>◌, ℕ, zero, suc, ◌≡◌, refl, ap, ◌∙◌, sym, List, [],
  ◌∷◌, Option, none, some, if◌then◌else◌,
}
use libfc.Errors.{
  return_error, recoverable, fatal, short_header, message_version_number, system_error, Call, ◌>=>◌,
  >=>-cong,
}
use libfc.Ipfix.Source.{InputSource}
use libfc.Ipfix.Content.{ContentHandler}
use libfc.Ipfix.Parser.{uint16_at, message_header, parse_body, parse_message, parse_messages, parse}

-- States of two sources are alike in a way that reading and moving on keep.
pub record Simulates (first second : InputSource) (Alike : first.State → second.State → Type 0)
    : Type 0 where
  pub read_same :
      (s : first.State) (t : second.State) (n : ℕ)
      → Alike s t
      → (first.read s n).0 ≡ (second.read t n).0
  pub read_alike :
      (s : first.State) (t : second.State) (n : ℕ)
      → Alike s t
      → Alike (first.read s n).1 (second.read t n).1
  pub advance_alike :
      (s : first.State) (t : second.State)
      → Alike s t
      → Alike (first.advance_message_offset s) (second.advance_message_offset t)

module _ (first second : InputSource) (Alike : first.State → second.State → Type 0)
    (sim : Simulates first second Alike) (ch : ContentHandler) where
  parse_body-same :
      (body : Option (List ℕ)) (wanted : ℕ) (h : ch.State)
      → parse_body first ch body wanted h ≡ parse_body second ch body wanted h
  unfolding parse_body
  parse_body-same none wanted h = refl
  parse_body-same (some body) wanted h = refl

  parse_message-same :
      (bytes : List ℕ) (s : first.State) (t : second.State) (h : ch.State)
      (next : first.State → ch.State → Call ch.State)
      (next' : second.State → ch.State → Call ch.State)
      → Alike s t
      → ((s' : first.State) (t' : second.State) (h' : ch.State)
          → Alike s' t'
          → next s' h' ≡ next' t' h')
      → parse_message first ch bytes s h next ≡ parse_message second ch bytes t h next'
  unfolding parse_message
  parse_message-same bytes s t h next next' a k =
      let n = uint16_at bytes 2 - 16 in
      let body = λ (h1 : ch.State).
        parse_body-same (first.read s n).0 n h1
        ∙ ap (λ o. parse_body second ch o n h1) (sim.read_same s t n a) in
      let behind = sim.advance_alike _ _ (sim.read_alike s t n a) in
      let chain = >=>-cong (ch.start_message (message_header bytes) h) _ _ λ h1.
        ap (λ c. assert (leb 16 (uint16_at bytes 2)) >> c)
          (ap (λ c. c >=> next (first.advance_message_offset (first.read s n).1)) (body h1)
            ∙ >=>-cong (parse_body second ch (second.read t n).0 n h1) _ _ λ h2. k _ _ h2 behind) in
      ap
        (λ c.
          if ltb (length bytes) 16
          then return_error recoverable short_header h
          else if not (uint16_at bytes 0 == 10)
          then return_error recoverable message_version_number h
          else c)
        chain

  -- What a round does with the header that was read.
  abbrev round :
      (is : InputSource)
      → (is.State → ch.State → Call ch.State)
      → is.State
      → ch.State
      → Option (List ℕ)
      → Call ch.State
  round is next src h none = return_error fatal system_error h
  round is next src h (some []) = ch.end_session h
  round is next src h (some (b ∷ bs)) = parse_message is ch (b ∷ bs) src h next

  parse_messages-round :
      (is : InputSource) (fuel : ℕ) (src : is.State) (h : ch.State) (o : Option (List ℕ))
      → (is.read src 16).0 ≡ o
      → parse_messages is ch (suc fuel) src h
        ≡ round is (parse_messages is ch fuel) (is.read src 16).1 h o
  unfolding parse_messages
  parse_messages-round is fuel src h none e = rw (e, parse_messages) refl
  parse_messages-round is fuel src h (some []) e = rw (e, parse_messages) refl
  parse_messages-round is fuel src h (some (b ∷ bs)) e = rw (e, parse_messages) refl

  round-same :
      (o : Option (List ℕ)) (s : first.State) (t : second.State) (h : ch.State)
      (next : first.State → ch.State → Call ch.State)
      (next' : second.State → ch.State → Call ch.State)
      → Alike s t
      → ((s' : first.State) (t' : second.State) (h' : ch.State)
          → Alike s' t'
          → next s' h' ≡ next' t' h')
      → round first next s h o ≡ round second next' t h o
  round-same none s t h next next' a k = refl
  round-same (some []) s t h next next' a k = refl
  round-same (some (b ∷ bs)) s t h next next' a k = parse_message-same (b ∷ bs) s t h next next' a k

  parse_messages-same :
      (fuel : ℕ) (s : first.State) (t : second.State) (h : ch.State)
      → Alike s t
      → parse_messages first ch fuel s h ≡ parse_messages second ch fuel t h
  unfolding parse_messages
  parse_messages-same zero s t h a = refl
  parse_messages-same (suc fuel) s t h a =
      parse_messages-round first fuel s h (first.read s 16).0 refl
      ∙ (round-same (first.read s 16).0 (first.read s 16).1 (second.read t 16).1 h
            (parse_messages first ch fuel) (parse_messages second ch fuel) (sim.read_alike s t 16 a)
            (parse_messages-same fuel)
          ∙ sym (
              parse_messages-round second fuel t h (first.read s 16).0
                (sym (sim.read_same s t 16 a))))

  -- The parser does the same over two sources that are alike: it calls the handler with the same
  -- events and comes to the same end.
  pub parse-same :
      (fuel : ℕ) (s : first.State) (t : second.State) (h : ch.State)
      → Alike s t
      → parse first ch fuel s h ≡ parse second ch fuel t h
  unfolding parse
  parse-same fuel s t h a =
      >=>-cong (ch.start_session h) _ _ λ h'. parse_messages-same fuel s t h' a
