-- ===== src/Hello/Safety.antt =====
-- internal/tlshello/sni.go: the reads and the loops of `ServerName`.
use split_wire.Prelude.{
  Bytes, Returns, [], arith, be16, byte_at, length, range, suc, zero, ℕ, ◌*◌, ◌++◌, ◌+◌, ◌<◌, ◌^◌,
  ◌≤◌,
}
use split_wire.Hello.{
  server_names, extensions, records, hello_body, hello_tail, parse_client_hello, server_list,
  server_name, whole_hello,
}

module _ (lower : Bytes → Bytes) where
  server_names-Returns :
      (fuel : ℕ) (x : Bytes) (p stop : ℕ)
      → stop ≤ length x
      → p ≤ stop
      → stop < fuel + p
      → Returns (server_names lower fuel x p stop)
  unfolding server_names
  server_names-Returns zero x p stop h o m = absurd (omega arith)
  server_names-Returns (suc fuel) x p stop h o m =
      ground (arith, server_names-Returns fuel x (p + 3 + be16 x (p + 1)) stop)

  server_list-Returns : (x : Bytes) → Returns (server_list lower x)
  unfolding server_list
  server_list-Returns x = ground (arith, server_names-Returns (suc (length x)) x 2 (2 + be16 x 0))

  extensions-Returns :
      (fuel : ℕ) (b : Bytes) (off stop : ℕ)
      → stop ≤ length b
      → off ≤ stop
      → stop < fuel + off
      → Returns (extensions lower fuel b off stop)
  unfolding extensions
  extensions-Returns zero b off stop h o m = absurd (omega arith)
  extensions-Returns (suc fuel) b off stop h o m = ground (
    arith,
    server_list-Returns (range b (off + 4) (off + 4 + be16 b (off + 2))),
    extensions-Returns fuel b (off + 4 + be16 b (off + 2)) stop,
  )

  hello_tail-Returns : (b : Bytes) (off : ℕ) → off ≤ length b → Returns (hello_tail lower b off)
  unfolding hello_tail
  hello_tail-Returns b off h =
      ground (arith, extensions-Returns (suc (length b)) b (off + 2) (off + 2 + be16 b off))

  hello_body-Returns : (b : Bytes) → Returns (hello_body lower b)
  unfolding hello_body
  hello_body-Returns b =
      let cs = 35 + byte_at b 34 in
      let off = cs + 2 + be16 b cs in ground (arith, hello_tail-Returns b (off + 1 + byte_at b off))

  parse_client_hello-Returns : (hs : Bytes) → Returns (parse_client_hello lower hs)
  unfolding parse_client_hello
  parse_client_hello-Returns hs =
      let hlen = byte_at hs 1 * 2 ^ 16 + byte_at hs 2 * 2 ^ 8 + byte_at hs 3 in
      ground (arith, hello_body-Returns (range hs 4 (4 + hlen)))

  whole_hello-Returns : (hs : Bytes) → Returns (whole_hello lower hs)
  unfolding whole_hello
  whole_hello-Returns hs =
      let hlen = byte_at hs 1 * 2 ^ 16 + byte_at hs 2 * 2 ^ 8 + byte_at hs 3 in
      ground (arith, parse_client_hello-Returns (range hs 0 (4 + hlen)))

  records-Returns :
      (fuel : ℕ) (input : Bytes) (off : ℕ) (hs : Bytes)
      → off ≤ length input
      → length input < fuel + off
      → Returns (records lower fuel input off hs)
  unfolding records
  records-Returns zero input off hs h m = absurd (omega arith)
  records-Returns (suc fuel) input off hs h m =
      let len = be16 input (off + 3) in
      let hs' = hs ++ range input (off + 5) (off + 5 + len) in
      ground (
        arith,
        whole_hello-Returns hs,
        whole_hello-Returns hs',
        records-Returns fuel input (off + (5 + len)) hs,
        records-Returns fuel input (off + (5 + len)) hs',
      )

  -- `ServerName` returns on all data: it reads within the data, and each of its three loops ends.
  pub server_name-Returns : (input : Bytes) → Returns (server_name lower input)
  unfolding server_name
  server_name-Returns input = ground (arith, records-Returns (suc (length input)) input 0 [])
