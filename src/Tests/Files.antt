-- ===== src/Tests/Files.antt =====
-- The theorems on files and datagrams at concrete inputs.
use libfc.Prelude.{
  ap, ◌+◌, ◌==◌, if◌then◌else◌, ℕ, ◌≡◌, arith, refl, List, [], ◌∷◌, none, some, take, drop,
}
use libfc.Errors.{◌>=>◌}
use libfc.Ipfix.Parser.{parse}
use libfc.Ipfix.Stream.{Message, IsSmall, all_messages, deliver_messages}
use libfc.Sources.Base.{System, start, file_source, tcp_source}
use libfc.Sources.File.{IsFile, file_parse-all_messages}
use libfc.Sources.Udp.{udp_read, udp_start, udp_read_stuck}
use libfc.Tests.Data.{recorder}

-- A file, whose state is the octets that are still to be read.
abbrev octet_file : System
octet_file = record {
  State = List ℕ;
  read = λ octets n. (some (take n octets), drop n octets);
  peek = λ octets n. some (take n octets);
}

octet_file-IsFile : IsFile octet_file (λ octets rest. octets ≡ rest)
octet_file-IsFile = record {
  given = λ octets rest n e. ap (λ xs. some (take n xs)) e;
  left = λ octets rest n e. ap (drop n) e;
}

abbrev empty_message : Message
empty_message = record { export_time = 2; sequence_number = 8; observation_domain = 5; sets = [] }

empty_message-IsSmall : IsSmall empty_message
empty_message-IsSmall = record {
  length_small = omega arith;
  time_small = omega arith;
  sequence_small = omega arith;
  domain_small = omega arith;
  sets_small = tt;
}

abbrev octets_of_message : List ℕ
octets_of_message = all_messages (empty_message ∷ [])

file_parse-all_messages_example :
    (parse (file_source octet_file) recorder 2 (start octet_file octets_of_message) []
      ≡ recorder.start_session [] >=> deliver_messages recorder (empty_message ∷ []))
    × (parse (tcp_source octet_file) recorder 2 (start octet_file octets_of_message) []
        ≡ recorder.start_session [] >=> deliver_messages recorder (empty_message ∷ []))
file_parse-all_messages_example =
    file_parse-all_messages octet_file (λ octets rest. octets ≡ rest) octet_file-IsFile recorder
      (empty_message ∷ []) 2 octets_of_message [] (empty_message-IsSmall, tt) (omega arith) refl

-- A socket that fails once, and then has a packet.
abbrev flaky_socket : System
flaky_socket = record {
  State = ℕ;
  read = λ k n. (if k == 0 then none else some (1 ∷ 2 ∷ []), k + 1);
  peek = λ k n. none;
}

udp_read_stuck_example :
    ((udp_read flaky_socket (udp_start flaky_socket 0) 2).0 ≡ none)
    × (udp_read flaky_socket (udp_read flaky_socket (udp_start flaky_socket 0) 2).1 2
        ≡ (none, (udp_read flaky_socket (udp_start flaky_socket 0) 2).1))
udp_read_stuck_example = udp_read_stuck flaky_socket (udp_start flaky_socket 0) 2 2 refl refl
