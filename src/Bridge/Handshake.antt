-- ===== src/Bridge/Handshake.antt =====
-- handle_handshake of bridge.c up to the answer that it sends; what it does to the session is in
-- Bridge.Session. The request is a C string.
pub mod Answer
use caligo_engine.Base.{
  ℕ, zero, suc, ◌+◌, ◌-◌, ◌≤◌, Bool, true, false, ◌&&◌, ◌||◌, Option, none, some, List, [], ◌∷◌,
  ◌++◌, length, take, drop, ltb, leb, ◌==◌, if◌then◌else◌,
}
use caligo_engine.Base.Text.{codes, find_char, find_sub, find_sub_ci}
use caligo_engine.Bridge.Base64.{base64_encode}
use caligo_engine.Bridge.Sha1.{sha1}

abbrev pub ws_guid : List ℕ
ws_guid = codes "258EAFA5-E914-47DA-95CA-C5AB0DC85B11"

-- CR LF
abbrev pub crlf : List ℕ
crlf = 13 ∷ 10 ∷ []

-- key_len or proto_len, cut to an array of 64 with its NUL, and strncpy of that many bytes.
unfoldable pub copy_64 : ℕ → List ℕ → List ℕ
copy_64 n s = take (if leb 64 n then 63 else n) s

-- The value of a header from the end of its name to the end of the line; `none` if either lacks.
unfoldable pub header_value : List ℕ → List ℕ → Option (List ℕ)
header_value name request = elim (find_sub_ci name request) [
  | none ↦ none
  | some i ↦
      let start = drop (i + length name) request in
      elim (find_sub crlf start) [ none ↦ none | some n ↦ some (copy_64 n start) ]
]

-- isspace in the C locale
unfoldable pub is_space : ℕ → Bool
is_space c = c == 32 || (leb 9 c && leb c 13)

-- The spaces at the end, but never the first character: `end > protocol`.
unfoldable pub trim_spaces : List ℕ → List ℕ
trim_spaces [] = []
trim_spaces (c ∷ s) = elim (trim_spaces s) [
  | [] ↦ if is_space c then [] else c ∷ []
  | d ∷ t ↦ c ∷ d ∷ t
]

unfoldable pub trim_end : List ℕ → List ℕ
trim_end [] = []
trim_end (c ∷ s) = c ∷ trim_spaces s

-- The protocol offered first: what stands before a comma.
unfoldable pub before_comma : List ℕ → List ℕ
before_comma protocol = elim (find_char b',' protocol) [
  | none ↦ protocol
  | some i ↦ take i protocol
]

unfoldable pub protocol_of : List ℕ → List ℕ
protocol_of request = elim (header_value (codes "Sec-WebSocket-Protocol: ") request) [
  | none ↦ []
  | some value ↦ trim_end value
]

-- Sec-WebSocket-Accept
unfoldable pub accept_key : List ℕ → List ℕ
accept_key key = base64_encode (sha1 (key ++ ws_guid))

-- The protocol's line, if there is one.
unfoldable pub protocol_line : List ℕ → List ℕ
protocol_line [] = []
protocol_line (c ∷ protocol) =
    codes "Sec-WebSocket-Protocol: " ++ (before_comma (c ∷ protocol) ++ crlf)

unfoldable pub response : List ℕ → List ℕ → List ℕ
response key protocol =
    codes "HTTP/1.1 101 Switching Protocols"
    ++ (crlf
        ++ (codes "Upgrade: websocket"
            ++ (crlf
                ++ (codes "Connection: Upgrade"
                    ++ (crlf
                        ++ (codes "Sec-WebSocket-Accept: "
                            ++ (accept_key key ++ (crlf ++ (protocol_line protocol ++ crlf)))))))))

-- The answer sent to the client; `none` is the return of -1 before anything is sent.
unfoldable pub handshake_response : List ℕ → Option (List ℕ)
handshake_response request = elim (header_value (codes "Sec-WebSocket-Key: ") request) [
  | none ↦ none
  | some key ↦ some (response key (protocol_of request))
]
