-- ===== src/Scenarios/Parsers.antt =====
-- Runs of the parsers, on packets written out as memory.
use violet.Base.{
  true, false, bytes_at, ℕ, zero, suc, ◌<◌, ◌≡◌, refl, List, [], ◌∷◌, none, some, arith, Memory,
  get_or, ltb, if◌then◌else◌, ◌+◌, codes, ◌++◌,
}
use violet.Tls.{named, parse_tls_header}
use violet.Tls.Safe.{IsSound, parse_tls_header-reads, parse_tls_header-IsSound}
use violet.Tls.Encode.{Hello, IsHello, client_hello, Holds}
use violet.Tls.Hello.{parse_tls_header-client_hello}
use violet.Http.{patch_http_url, starts_with}
use violet.Http.Inserts.{Inserted, patch_http_url-Inserted}
use violet.Dns.{get_qname}
use violet.Dns.Name.{get_qname-stuck}
use violet.Packet.{get_default_mss}
use violet.Tcp.Types.{listen}
use violet.Tcp.Packet.{Flags, tcp_options, optlen}
use violet.Tcp.Write.{flags}
use violet.Tcp.Options.Written.{swapped, decode_options-tcp_options}
use violet.Scenarios.{session}
use violet.Tcp.Options.{Decoded, decode_options}
use violet.Tcp.Options.Ends.{decode_options-stuck}

-- Bytes with zeros behind them.
abbrev packet : List ℕ → Memory
packet bytes i = get_or bytes i 0

-- A hello that asks for "a.b".
abbrev zeros : ℕ → List ℕ
zeros zero = []
zeros (suc n) = 0 ∷ zeros n

abbrev hello : Hello
hello = record {
  minor = 1;
  fixed = 0 ∷ 0 ∷ 80 ∷ zeros 34;
  session = 9 ∷ 9 ∷ [];
  ciphers = 0x13 ∷ 1 ∷ [];
  compression = 0 ∷ [];
  before = record { hi = 0; lo = 23; body = [] } ∷ [];
  name = 97 ∷ 46 ∷ 98 ∷ [];
  behind = 0 ∷ 16 ∷ 0 ∷ 0 ∷ [];
}

abbrev hello_packet : Memory
hello_packet = packet (client_hello hello)

hello-Holds : Holds hello_packet 0 (client_hello hello)
hello-Holds = omega arith

hello-IsHello : IsHello hello
hello-IsHello = record {
  fixed = refl;
  session = omega arith;
  ciphers = omega arith;
  compression = omega arith;
  before = omega arith;
  name = omega arith;
  size = omega arith;
}

parse_tls_header-client_hello_example :
    parse_tls_header hello_packet 300 ≡ named (97 ∷ 46 ∷ 98 ∷ [])
parse_tls_header-client_hello_example =
    parse_tls_header-client_hello hello_packet hello hello-IsHello 300 hello-Holds (omega arith)

-- Two packets that differ behind their 90 bytes.
abbrev other_packet : Memory
other_packet i = if ltb i 90 then hello_packet i else 7

parse_tls_header-reads_example : parse_tls_header hello_packet 90 ≡ parse_tls_header other_packet 90
parse_tls_header-reads_example =
    parse_tls_header-reads hello_packet other_packet 90 (λ i h. ground arith)

parse_tls_header-IsSound_example : IsSound (parse_tls_header hello_packet 60)
parse_tls_header-IsSound_example = parse_tls_header-IsSound hello_packet 60

-- A question for "ab".
abbrev question : Memory
question = packet (2 ∷ 33 ∷ 34 ∷ [])

question-IsByte : (i : ℕ) → question i < 64
question-IsByte zero = omega arith
question-IsByte (suc zero) = omega arith
question-IsByte (suc (suc zero)) = omega arith
question-IsByte (suc (suc (suc i))) = omega arith

-- At 12 a pointer to 12.
abbrev self_pointer : Memory
self_pointer =
    packet (0 ∷ 0 ∷ 1 ∷ 0 ∷ 0 ∷ 1 ∷ 0 ∷ 0 ∷ 0 ∷ 0 ∷ 0 ∷ 0 ∷ 192 ∷ 12 ∷ 0 ∷ 1 ∷ 0 ∷ 1 ∷ [])

get_qname-stuck_example : get_qname 1000 self_pointer 18 12 ≡ none
get_qname-stuck_example = get_qname-stuck 1000 self_pointer 18 12 (omega arith, refl)

abbrev start : Decoded
start = record { mss = 1460; ws = 0 }

-- The timestamp kind, with a length of 0.
decode_options-stuck_example : decode_options 1000 (packet (8 ∷ 0 ∷ 0 ∷ 0 ∷ [])) 0 4 start ≡ none
decode_options-stuck_example =
    decode_options-stuck (packet (8 ∷ 0 ∷ 0 ∷ 0 ∷ [])) 0 4 1000 start (omega arith) (omega arith)
      refl

-- An MSS, a padding byte and a window scale.
abbrev options : Memory
options = packet (2 ∷ 4 ∷ 5 ∷ 180 ∷ 1 ∷ 3 ∷ 3 ∷ 7 ∷ 1 ∷ [])

options-nonzero : (i : ℕ) → 1 < options i → 0 < options (i + 1)
options-nonzero zero h = omega arith
options-nonzero (suc zero) h = omega arith
options-nonzero (suc (suc zero)) h = omega arith
options-nonzero (suc (suc (suc zero))) h = omega arith
options-nonzero (suc (suc (suc (suc zero)))) h = absurd (omega arith)
options-nonzero (suc (suc (suc (suc (suc zero))))) h = omega arith
options-nonzero (suc (suc (suc (suc (suc (suc zero)))))) h = omega arith
options-nonzero (suc (suc (suc (suc (suc (suc (suc zero))))))) h = omega arith
options-nonzero (suc (suc (suc (suc (suc (suc (suc (suc zero)))))))) h = absurd (omega arith)
options-nonzero (suc (suc (suc (suc (suc (suc (suc (suc (suc i))))))))) h = absurd (omega arith)

-- A request that gets its URL.
abbrev request : Memory
request =
    packet (codes "GET / HTTP/1.1" ++ (13 ∷ 10 ∷ codes "Host: a.b" ++ (13 ∷ 10 ∷ 13 ∷ 10 ∷ [])))

abbrev request_patched : List ℕ
request_patched =
    codes "GET http://a.b/ HTTP/1.1" ++ (13 ∷ 10 ∷ codes "Host: a.b" ++ (13 ∷ 10 ∷ 13 ∷ 10 ∷ []))

patch_http_url-Inserted_example : Inserted request 29 request_patched
unfolding patch_http_url starts_with bytes_at
patch_http_url-Inserted_example = patch_http_url-Inserted request 29 request_patched refl

-- The flags of a SYN with ACK.
abbrev syn_ack : Flags
syn_ack = flags true true false false

decode_options-tcp_options_example :
    decode_options 8
      (λ i. get_or (tcp_options (session listen) syn_ack) i 0)
      0
      (optlen syn_ack)
      start
    ≡ some (record { mss = swapped (get_default_mss 4); ws = 7 })
decode_options-tcp_options_example = decode_options-tcp_options (session listen) syn_ack start refl
