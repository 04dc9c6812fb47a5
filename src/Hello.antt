-- ===== src/Hello.antt =====
-- internal/tlshello/sni.go: the server name of a TLS ClientHello. A result `(name, complete)` is the
-- source's first two; with an error the source gives an empty name and `complete`. The argument
-- `lower` is `strings.ToLower` on the bytes of a string.
pub mod Safety
use split_wire.Text.{trim_dot}
use split_wire.Prelude.{
  Bool, Bytes, Option, Outcome, [], at, fail_if, false, if◌then◌else◌, leb, length, ltb, none, not,
  ok, out_of_fuel, slice, some, suc, true, u16_at, zero, ℕ, ◌%◌, ◌&&◌, ◌*◌, ◌++◌, ◌+◌, ◌-◌, ◌==◌,
  ◌>>=◌, ◌>>◌, ◌^◌, ◌||◌,
}

-- `ErrNotClientHello` and `ErrMalformed`.
pub data Error : Type 0 where
  not_client_hello malformed : Error

-- The answer where more bytes are needed, and the one for a hello without a name.
abbrev pub needs_more : Bytes × Bool
needs_more = ([], false)

abbrev pub nameless : Bytes × Bool
nameless = ([], true)

-- The handshake's length, in the three bytes behind the first.
abbrev pub handshake_length : Bytes → Outcome Error ℕ
handshake_length hs = do
  high ← at hs 1
  middle ← at hs 2
  low ← at hs 3
  ok (high * 2 ^ 16 + middle * 2 ^ 8 + low)

module _ (lower : Bytes → Bytes) where
  -- The loop over the entries of the extension: the first host name that is not empty. Each round
  -- moves `p` forwards by three bytes or more.
  unfoldable pub server_names : ℕ → Bytes → ℕ → ℕ → Outcome Error (Bytes × Bool)
  server_names zero x p stop = out_of_fuel
  server_names (suc fuel) x p stop = elim (leb (p + 3) stop) [
    | false ↦ ok nameless
    | true ↦ do
      name_type ← at x p
      n ← u16_at x (p + 1)
      fail_if (ltb stop (p + 3 + n)) malformed
      elim ((name_type == 0) && ltb 0 n) [
        | true ↦ do name ← slice x (p + 3) (p + 3 + n); ok (lower (trim_dot name), true)
        | false ↦ server_names fuel x (p + 3 + n) stop
      ]
  ]

  -- The contents of the extension `server_name`.
  unfoldable pub server_list : Bytes → Outcome Error (Bytes × Bool)
  server_list x = do
    fail_if (ltb (length x) 2) malformed
    list_len ← u16_at x 0
    fail_if (ltb (length x) (2 + list_len)) malformed
    server_names (suc (length x)) x 2 (2 + list_len)

  -- The loop over the extensions. Each round moves `off` forwards by four bytes or more.
  unfoldable pub extensions : ℕ → Bytes → ℕ → ℕ → Outcome Error (Bytes × Bool)
  extensions zero b off stop = out_of_fuel
  extensions (suc fuel) b off stop = elim (leb (off + 4) stop) [
    | false ↦ ok nameless
    | true ↦ do
      typ ← u16_at b off
      ln ← u16_at b (off + 2)
      fail_if (ltb stop (off + 4 + ln)) malformed
      elim (typ == 0) [
        | true ↦ do x ← slice b (off + 4) (off + 4 + ln); server_list x
        | false ↦ extensions fuel b (off + 4 + ln) stop
      ]
  ]

  -- What follows the compression methods, from `off`.
  unfoldable pub hello_tail : Bytes → ℕ → Outcome Error (Bytes × Bool)
  hello_tail b off = elim (off == length b) [
    | true ↦ ok nameless
    | false ↦ do
      fail_if (ltb (length b) (off + 2)) malformed
      ext_len ← u16_at b off
      fail_if (ltb (length b) (off + 2 + ext_len)) malformed
      extensions (suc (length b)) b (off + 2) (off + 2 + ext_len)
  ]

  -- The body of the handshake message, `b` in `parseClientHello`.
  unfoldable pub hello_body : Bytes → Outcome Error (Bytes × Bool)
  hello_body b = do
    fail_if (ltb (length b) 34) malformed
    fail_if (leb (length b) 34) malformed
    sid_len ← at b 34
    fail_if (ltb (length b) (35 + sid_len + 2)) malformed
    cs_len ← u16_at b (35 + sid_len)
    let off = 35 + sid_len + 2
    fail_if ((cs_len == 0) || not (cs_len % 2 == 0) || ltb (length b) (off + cs_len + 1)) malformed
    comp_len ← at b (off + cs_len)
    fail_if (ltb (length b) (off + cs_len + 1 + comp_len)) malformed
    hello_tail b (off + cs_len + 1 + comp_len)

  unfoldable pub parse_client_hello : Bytes → Outcome Error (Bytes × Bool)
  parse_client_hello hs = do
    fail_if (ltb (length hs) 4) not_client_hello
    handshake_type ← at hs 0
    fail_if (not (handshake_type == 1)) not_client_hello
    hlen ← handshake_length hs
    elim (ltb (length hs) (4 + hlen)) [
      | true ↦ ok needs_more
      | false ↦ do b ← slice hs 4 (4 + hlen); hello_body b
    ]

  -- The result on the handshake bytes gathered so far, once the whole message is there.
  unfoldable pub whole_hello : Bytes → Outcome Error (Option (Bytes × Bool))
  whole_hello hs = elim (leb 4 (length hs)) [
    | false ↦ ok none
    | true ↦ do
      hlen ← handshake_length hs
      fail_if (ltb (2 ^ 20) hlen) malformed
      elim (leb (4 + hlen) (length hs)) [
        | false ↦ ok none
        | true ↦ do message ← slice hs 0 (4 + hlen); r ← parse_client_hello message; ok (some r)
      ]
  ]

  -- The loop over the records. Each round moves `off` forwards by five bytes or more.
  unfoldable pub records : ℕ → Bytes → ℕ → Bytes → Outcome Error (Bytes × Bool)
  records zero stream off hs = out_of_fuel
  records (suc fuel) stream off hs = elim (ltb (length stream - off) 5) [
    | true ↦ ok needs_more
    | false ↦ do
      typ ← at stream off
      ln ← u16_at stream (off + 3)
      fail_if (ltb (2 ^ 15) ln) malformed
      elim (ltb (length stream - off) (5 + ln)) [
        | true ↦ ok needs_more
        | false ↦ do
          hs' ←
              (if typ == 22
                then (do part ← slice stream (off + 5) (off + 5 + ln); ok (hs ++ part))
                else ok hs)
          found ← whole_hello hs'
          elim found [
            | some r ↦ ok r
            | none ↦ elim (leb (length stream) (off + (5 + ln))) [
              | true ↦ ok needs_more
              | false ↦ records fuel stream (off + (5 + ln)) hs'
            ]
          ]
      ]
  ]

  unfoldable pub server_name : Bytes → Outcome Error (Bytes × Bool)
  server_name stream = elim (ltb (length stream) 5) [
    | true ↦ ok needs_more
    | false ↦ do
      first ← at stream 0
      fail_if (not (first == 22)) not_client_hello
      records (suc (length stream)) stream 0 []
  ]
