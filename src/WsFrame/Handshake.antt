-- ===== src/WsFrame/Handshake.antt =====
-- `ws_accept_response`. SHA-1 and base64 are GLib's and are taken as functions; each may fail.
use capture2cloud.Base.{
  ℕ, ◌+◌, List, [], ◌++◌, ◌≡◌, refl, Option, none, some, arith, ltb, leb, ◌==◌, ◌||◌, ◌&&◌,
  if◌then◌else◌, length, length-append, codes, ◌∷◌,
}

unfoldable pub ws_guid : List ℕ
ws_guid = codes "258EAFA5-E914-47DA-95CA-C5AB0DC85B11"

-- The carriage return and line feed that end a line.
abbrev crlf : List ℕ
crlf = 13 ∷ 10 ∷ []

unfoldable pub response_head : List ℕ
response_head =
    codes "HTTP/1.1 101 Switching Protocols"
    ++ (crlf
        ++ (codes "Upgrade: websocket"
            ++ (crlf ++ (codes "Connection: Upgrade" ++ (crlf ++ codes "Sec-WebSocket-Accept: ")))))

unfoldable pub response_tail : List ℕ
response_tail = crlf ++ crlf

-- `snprintf` into `size` bytes: the text, if it and its closing zero fit.
unfoldable pub printed : List ℕ → ℕ → Option (List ℕ)
printed text size = if leb size (length text) then none else some text

length-ws_guid : length ws_guid ≡ 36
unfolding ws_guid
length-ws_guid = refl

length-response_tail : length response_tail ≡ 4
unfolding response_tail
length-response_tail = refl

module _ (sha1 base64 : List ℕ → Option (List ℕ)) where
  abbrev pub encoded : List ℕ → Option (List ℕ)
  encoded joined = elim (sha1 joined) [ none ↦ none | some digest ↦ base64 digest ]

  -- The text written to `out`, a buffer of `out_size` bytes; `none` is the return value 0.
  unfoldable pub ws_accept_response : List ℕ → ℕ → Option (List ℕ)
  unfolding printed
  ws_accept_response key out_size =
      if length key == 0 || ltb 128 (length key)
      then none
      else (elim (printed (key ++ ws_guid) 160) [
        | none ↦ none
        | some joined ↦ elim (encoded joined) [
          | none ↦ none
          | some accept ↦ printed (response_head ++ (accept ++ response_tail)) out_size
        ]
      ])

  -- A key of 1 to 123 characters is answered, where its digest can be encoded and the response
  -- and a closing zero fit `out`: the answer is the fixed text around the encoded digest of the
  -- key and the protocol's GUID. Any other key, and any buffer too small, gives no response.
  pub ws_accept_response_lem :
      (key accept : List ℕ) (out_size : ℕ)
      → encoded (key ++ ws_guid) ≡ some accept
      → ws_accept_response key out_size ≡ (
          if leb 1 (length key)
            && leb (length key) 123
            && ltb (length response_head + length accept + 4) out_size
          then some (response_head ++ (accept ++ response_tail))
          else none)
  unfolding ws_accept_response
  ws_accept_response_lem key accept out_size e = ground (
    arith,
    e,
    length-ws_guid,
    length-response_tail,
    length-append key ws_guid,
    length-append response_head (accept ++ response_tail),
    length-append accept response_tail,
  )
