-- ===== src/Scenarios/Bypass.antt =====
-- Runs of the proxy's socket and packet functions.
use violet.Base.{◌≡◌, refl, false, true, none, some, List, [], ◌∷◌, arith, codes, length, ◌++◌, ℕ}
use violet.Bypass.Socket.{takes, send_interrupted, finished, split_rest, send_string}
use violet.Bypass.Socket.Sent.{joined, send_string-joined}
use violet.Bypass.Packet.{HttpSettings, erase_newlines, modify_http_request, find, modify_headers}
use violet.Bypass.Packet.Newlines.{without_lf, erase_newlines_lem}

-- Five bytes in pieces of two: the last goes out alone.
send_string-joined_example :
    let r =
      send_string true
        (split_rest 2)
        (takes 2 ∷ send_interrupted ∷ takes 9 ∷ takes 1 ∷ takes 1 ∷ takes 1 ∷ [])
        (codes "hello") in
    (r.0 ≡ finished) × (joined r.1 ≡ codes "hello")
send_string-joined_example =
    send_string-joined 2 (takes 2 ∷ send_interrupted ∷ takes 9 ∷ takes 1 ∷ takes 1 ∷ takes 1 ∷ [])
      (codes "hello") (omega arith) (omega arith) (omega arith)

abbrev two_lines : List ℕ
two_lines = 65 ∷ 13 ∷ 10 ∷ 66 ∷ 13 ∷ 10 ∷ []

erase_newlines_lem_example :
    erase_newlines (length two_lines) two_lines ≡ without_lf false two_lines
erase_newlines_lem_example = erase_newlines_lem two_lines

abbrev plain : HttpSettings
plain = record {
  is_use_http_proxy = true;
  is_change_host_header = true;
  host_header = codes "hoSt:";
  is_add_dot_after_host = true;
  is_add_tab_after_host = false;
  is_remove_space_after_host = false;
  is_add_space_after_method = true;
  is_add_newline_before_method = false;
  is_use_unix_newline = false;
}

modifies_request :
    modify_http_request plain true
      (λ request. none)
      (codes "GET /" ++ (13 ∷ 10 ∷ codes "Host: a.b" ++ (13 ∷ 10 ∷ [])))
    ≡ some (codes "GET  /" ++ (13 ∷ 10 ∷ codes "hoSt: a.b." ++ (13 ∷ 10 ∷ [])))
modifies_request = unfold modify_http_request modify_headers find in refl
