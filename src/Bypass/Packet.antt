-- ===== src/Bypass/Packet.antt =====
-- modify_http_request of packet.cpp. A std::string is the list of its bytes; the search by a regular
-- expression is a parameter.
pub mod Newlines
use violet.Base.{
  ℕ, zero, suc, ◌+◌, Bool, true, false, ◌&&◌, not, Option, none, some, List, [], ◌∷◌, ◌++◌, ◌==◌,
  ltb, if◌then◌else◌, length, take, drop, codes,
}

-- The settings for HTTP that the function reads.
pub record HttpSettings : Type 0 where
  pub is_use_http_proxy : Bool
  pub is_change_host_header : Bool
  pub host_header : List ℕ
  pub is_add_dot_after_host : Bool
  pub is_add_tab_after_host : Bool
  pub is_remove_space_after_host : Bool
  pub is_add_space_after_method : Bool
  pub is_add_newline_before_method : Bool
  pub is_use_unix_newline : Bool

abbrev pub has_prefix : List ℕ → List ℕ → Bool
has_prefix [] xs = true
has_prefix (w ∷ word) [] = false
has_prefix (w ∷ word) (x ∷ xs) = w == x && has_prefix word xs

abbrev pub next_at : Option ℕ → Option ℕ
next_at none = none
next_at (some i) = some (suc i)

-- std::string::find; `none` is npos.
unfoldable pub find : List ℕ → List ℕ → Option ℕ
find word [] = if has_prefix word [] then some 0 else none
find word (x ∷ xs) =
    let rest = find word xs in if has_prefix word (x ∷ xs) then some 0 else next_at rest

-- std::string::replace, which insert and erase are cases of, at a position within the string.
abbrev pub replace : List ℕ → (at len : ℕ) → List ℕ → List ℕ
replace xs at len word = take at xs ++ (word ++ drop (at + len) xs)

abbrev pub crlf : List ℕ
crlf = 13 ∷ 10 ∷ []

-- Each \r\n that is found loses the byte behind the \r, and the search goes on at the \r. The rounds
-- are on the part of the request from the search's position on.
unfoldable pub erase_newlines : ℕ → List ℕ → List ℕ
erase_newlines zero xs = xs
erase_newlines (suc rounds) [] = []
erase_newlines (suc rounds) (x ∷ []) = x ∷ []
erase_newlines (suc rounds) (x ∷ y ∷ xs) =
    let again = erase_newlines rounds (x ∷ xs) in
    let on = erase_newlines rounds (y ∷ xs) in if x == 13 && y == 10 then again else x ∷ on

abbrev pub insert_at_end_of_line : List ℕ → ℕ → List ℕ → List ℕ
insert_at_end_of_line request host mark = elim (find crlf (drop host request)) [
  | none ↦ request
  | some i ↦ replace request (host + i) 0 mark
]

-- The url in the first line, where the expression finds one. The match is a part of the request, so
-- that the search for it succeeds; `none` is the exception that it would raise.
abbrev pub remove_url : List ℕ → List ℕ → Option (List ℕ)
remove_url request url = elim (find url request) [
  | none ↦ none
  | some i ↦ some (replace request i (length url) [])
]

abbrev pub change_host : HttpSettings → Bool → List ℕ → ℕ → List ℕ
change_host s listed request host =
    if listed && s.is_change_host_header
    then replace request host (length s.host_header) s.host_header
    else request

abbrev pub mark_host : Bool → ℕ → ℕ → List ℕ → List ℕ
mark_host on mark host request =
    if on then insert_at_end_of_line request host (mark ∷ []) else request

abbrev pub remove_space : Bool → ℕ → List ℕ → List ℕ
remove_space on host request = if on then replace request (host + 5) 1 [] else request

-- An insert at npos raises an exception, which is `none`.
abbrev pub space_method : Bool → List ℕ → Option (List ℕ)
space_method false request = some request
space_method true request = elim (find (32 ∷ []) request) [
  | none ↦ none
  | some i ↦ some (replace request i 0 (32 ∷ []))
]

abbrev pub finish_request : HttpSettings → Bool → Option (List ℕ) → Option (List ℕ)
finish_request s listed none = none
finish_request s listed (some request) =
    let begun = if listed && s.is_add_newline_before_method then crlf ++ request else request in
    some (if listed && s.is_use_unix_newline then erase_newlines (length begun) begun else begun)

-- From the Host header on; without one the request stays as it is.
unfoldable pub modify_headers : HttpSettings → Bool → List ℕ → Option (List ℕ)
modify_headers s listed request = elim (find (codes "Host:") request) [
  | none ↦ some request
  | some host ↦
      let spelled = change_host s listed request host in
      let dotted = mark_host (listed && s.is_add_dot_after_host) 46 host spelled in
      let tabbed = mark_host (listed && s.is_add_tab_after_host) 9 host dotted in
      let joined = remove_space (listed && s.is_remove_space_after_host) host tabbed in
      finish_request s listed (space_method (listed && s.is_add_space_after_method) joined)
]

-- What the expression found: nothing, so that the request stays as it is, or the url.
abbrev pub modify_found : HttpSettings → Bool → List ℕ → Option (List ℕ) → Option (List ℕ)
modify_found s listed request none = some request
modify_found s listed request (some url) = elim (remove_url request url) [
  | none ↦ none
  | some rest ↦ modify_headers s listed rest
]

-- `listed` is `hostlist_condition`.
unfoldable pub modify_http_request :
    HttpSettings → (listed : Bool) → (List ℕ → Option (List ℕ)) → List ℕ → Option (List ℕ)
modify_http_request s listed search [] = some []
modify_http_request s listed search (b ∷ request) =
    if s.is_use_http_proxy
    then modify_headers s listed (b ∷ request)
    else modify_found s listed (b ∷ request) (search (b ∷ request))
