-- ===== src/Tls/Hello.antt =====
-- The parser on a client hello, stage by stage.
use violet.Base.{
  ℕ, ◌+◌, ◌*◌, ◌≤◌, ◌<◌, ◌≡◌, refl, ◌++◌, arith, Memory, offset, read_be16, be16, length,
  length-append, min,
}
use violet.Tls.{
  named, parse_extensions, hello_extensions, hello_compression, hello_ciphers, hello_session,
  parse_tls_header,
}
use violet.Tls.Encode.{
  extensions, server_name, Hello, all_extensions, Holds, Holds-append, Holds-offset,
  compression_part, ciphers_part, session_part, handshake, client_hello, IsHello,
}
use violet.Tls.Extensions.{extensions_lem}

module _ (p : Memory) (h : Hello) (ok : IsHello h) where
  parse_extensions_lem :
      (q : Memory)
      → Holds q 0 (all_extensions h)
      → parse_extensions q (length (all_extensions h)) ≡ named h.name
  unfolding parse_extensions
  parse_extensions_lem q holds =
      let l = length-append (extensions h.before) (server_name h.name ++ h.behind) in
      let size = length (all_extensions h) in
      extensions_lem q h.name h.behind ok.name h.before size size 0 holds ok.before (omega arith)
        (omega arith)

  hello_extensions_lem :
      (n pos : ℕ)
      → Holds p pos (be16 (length (all_extensions h)) ++ all_extensions h)
      → pos + 2 + length (all_extensions h) ≤ n
      → length (all_extensions h) < 65536
      → hello_extensions p n pos ≡ named h.name
  unfolding hello_extensions
  hello_extensions_lem n pos holds room small =
      let len : read_be16 p pos ≡ length (all_extensions h) = ground arith in
      let at : pos + 1 + 1 ≡ pos + 2 + 0 = omega arith in
      let body = Holds-offset p (pos + 2) 0 (all_extensions h) (rw at at holds.1.1) in
      ground (arith, len, parse_extensions_lem (offset p (pos + 2)) body)

  compression_lem :
      (n pos : ℕ)
      → Holds p pos (compression_part h)
      → pos + length (compression_part h) ≡ n
      → length (compression_part h) < 65536
      → hello_compression p n pos ≡ named h.name
  unfolding hello_compression
  compression_lem n pos holds room small =
      let tail = be16 (length (all_extensions h)) ++ all_extensions h in
      let l = length-append h.compression tail in
      let (here, there) = Holds-append p (pos + 1) h.compression tail holds.1 in
      let at : pos + 1 + length h.compression ≡ pos + (1 + length h.compression) = omega arith in
      let next = pos + (1 + length h.compression) in
      ground (arith, hello_extensions_lem n next (rw at at there) (omega arith) (omega arith))

  ciphers_lem :
      (n pos : ℕ)
      → Holds p pos (ciphers_part h)
      → pos + length (ciphers_part h) ≡ n
      → length (ciphers_part h) < 65536
      → hello_ciphers p n pos ≡ named h.name
  unfolding hello_ciphers
  ciphers_lem n pos holds room small =
      let tail = compression_part h in
      let l = length-append h.ciphers tail in
      let len : read_be16 p pos ≡ length h.ciphers = ground (arith, ok.ciphers) in
      let (here, there) = Holds-append p (pos + 1 + 1) h.ciphers tail holds.1.1 in
      let at : pos + 1 + 1 + length h.ciphers ≡ pos + (2 + length h.ciphers) = omega arith in
      let next = pos + (2 + length h.ciphers) in
      ground (arith, len, compression_lem n next (rw at at there) (omega arith) (omega arith))

  session_lem :
      (n : ℕ)
      → Holds p 5 (handshake h)
      → 5 + length (handshake h) ≡ n
      → length (handshake h) < 65536
      → hello_session p n ≡ named h.name
  unfolding hello_session
  session_lem n holds room small =
      let l = length-append h.fixed (session_part h) in
      let l' = length-append h.session (ciphers_part h) in
      let (f, s) = Holds-append p 6 h.fixed (session_part h) holds.1 in
      let at : 6 + length h.fixed ≡ 43 = omega (arith, ok.fixed) in
      let s' : Holds p 43 (session_part h) = rw at at s in
      let (here, there) = Holds-append p 44 h.session (ciphers_part h) s'.1 in
      let at' : 44 + length h.session ≡ 43 + (1 + length h.session) = omega arith in
      ground (
        arith,
        ciphers_lem n (43 + (1 + length h.session)) (rw at' at there) (omega (arith, ok.fixed))
            (omega arith),
      )

  -- The parser finds the server name of a well-formed client hello of TLS, wherever the extension
  -- stands, whatever else the hello holds, and whatever follows it in the packet.
  pub parse_tls_header-client_hello :
      (data_len : ℕ)
      → Holds p 0 (client_hello h)
      → length (client_hello h) ≤ data_len
      → parse_tls_header p data_len ≡ named h.name
  unfolding parse_tls_header
  parse_tls_header-client_hello data_len holds room =
      let size = 5 + length (handshake h) in
      let len : p 3 * 256 + p 4 + 5 ≡ size = omega (arith, ok.size) in
      let whole : min data_len (p 3 * 256 + p 4 + 5) ≡ size = omega arith in
      ground (arith, whole, session_lem size holds.1.1.1.1.1 refl ok.size)
