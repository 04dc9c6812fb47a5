-- ===== src/Packet/Fragment/One.antt =====
-- internal/packet/packet.go: what one fragment of `fragmentIPv4` holds.
use split_wire.Prelude.{
  Bool, Bytes, [], ap, arith, be16, be16-write, be16-write_ne, byte_at, bytes16, drop, drop-append,
  drop-write, get_or, get_or-append_left, get_or-range, get_or-write_ne, get_or_ext, if◌then◌else◌,
  inl, inr, length, length-append, length-range, length-set, length-take, length-write, ok, range,
  range-write_ne, set, set_bit, sym, u16, write, ℕ, ◌++◌, ◌+◌, ◌-◌, ◌/◌, ◌<◌, ◌∙◌, ◌∷◌, ◌≡◌, ◌≤◌,
  ◌⊎◌,
}
use split_wire.Packet.Fragment.{ipv4_header_checksum, fragment4}

-- The flags and the offset of a fragment that begins at `off`.
abbrev pub offset_field : Bool → ℕ → Bool → ℕ
offset_field reserved off more =
    (if reserved then 32768 else 0) + (if more then 8192 else 0) + off / 8

-- The fragment of `payload[off:off+n]`: its length field, identification, flags and offset are
-- those of its place, its first byte, protocol and addresses are those of the packet `b`.
abbrev pub IsPart : Bytes → ℕ → Bytes → ℕ → Bool → ℕ → ℕ → Bool → Bytes → Type 0
IsPart b ihl payload id reserved off n more s =
    (length s ≡ ihl + n)
    × (drop ihl s ≡ range payload off (off + n))
    × (be16 s 2 ≡ ihl + n)
    × (be16 s 4 ≡ id)
    × (be16 s 6 ≡ offset_field reserved off more)
    × (byte_at s 0 ≡ byte_at b 0)
    × (byte_at s 9 ≡ byte_at b 9)
    × (range s 12 20 ≡ range b 12 20)

range-append : (xs ys : Bytes) (i j : ℕ) → j ≤ length xs → range (xs ++ ys) i j ≡ range xs i j
range-append xs ys i j h =
    get_or_ext 0 _ _
      (omega (arith, length-range (xs ++ ys) i j, length-range xs i j, length-append xs ys))
      λ m p. ground (
        arith,
        length-range (xs ++ ys) i j,
        length-append xs ys,
        get_or-range (xs ++ ys) i j m,
        get_or-range xs i j m,
        get_or-append_left xs ys (i + m) 0,
      )

range-take : (b : Bytes) (n i j : ℕ) → j ≤ n → j ≤ length b → range (range b 0 n) i j ≡ range b i j
range-take b n i j h l =
    let len : j ≤ length (range b 0 n) = omega (arith, length-take (n - 0) b) in
    get_or_ext 0 _ _ (omega (arith, length-range (range b 0 n) i j len, length-range b i j l))
      λ m p.
        let q : m < j - i = omega (arith, length-range (range b 0 n) i j len, p) in
        get_or-range (range b 0 n) i j m q
        ∙ get_or-range b 0 n (i + m) (omega (arith, q))
        ∙ (let e : 0 + (i + m) ≡ i + m = omega arith in ap (λ (k : ℕ). get_or b k 0) e)
        ∙ sym (get_or-range b i j m q)

-- The edits of the header.
module _ (ihl id fo ck : ℕ) (f0 : Bytes) where
  abbrev edit1 : Bytes
  edit1 = write f0 2 (bytes16 (length f0))

  abbrev edit2 : Bytes
  edit2 = write edit1 4 (bytes16 id)

  abbrev edit3 : Bytes
  edit3 = write edit2 6 (bytes16 fo)

  abbrev edit5 : Bytes
  edit5 = set (set edit3 10 0) 11 0

  abbrev edit6 : Bytes
  edit6 = write edit5 10 (bytes16 ck)

  length-edit3 : length edit3 ≡ length f0
  length-edit3 =
      length-write edit2 6 (bytes16 fo)
      ∙ length-write edit1 4 (bytes16 id)
      ∙ length-write f0 2 (bytes16 (length f0))

  length-edit5 : length edit5 ≡ length f0
  length-edit5 = length-set (set edit3 10 0) 11 0 ∙ length-set edit3 10 0 ∙ length-edit3

  length-edit6 : length edit6 ≡ length f0
  length-edit6 = length-write edit5 10 (bytes16 ck) ∙ length-edit5

  drop-edit6 : 20 ≤ ihl → drop ihl edit6 ≡ drop ihl f0
  drop-edit6 h =
      drop-write ihl edit5 10 (bytes16 ck) (omega arith)
      ∙ drop-write ihl (set edit3 10 0) 11 (0 ∷ []) (omega arith)
      ∙ drop-write ihl edit3 10 (0 ∷ []) (omega arith)
      ∙ drop-write ihl edit2 6 (bytes16 fo) (omega arith)
      ∙ drop-write ihl edit1 4 (bytes16 id) (omega arith)
      ∙ drop-write ihl f0 2 (bytes16 (length f0)) (omega arith)

  -- The numbers before the checksum.
  be16-edit6 : (i : ℕ) → i + 2 ≤ 10 → be16 edit6 i ≡ be16 edit3 i
  be16-edit6 i h =
      be16-write_ne edit5 10 (bytes16 ck) i (inr (omega arith))
      ∙ be16-write_ne (set edit3 10 0) 11 (0 ∷ []) i (inr (omega arith))
      ∙ be16-write_ne edit3 10 (0 ∷ []) i (inr (omega arith))

  byte_at-edit6 : (i : ℕ) → (i < 2) ⊎ ((8 ≤ i) × (i < 10)) → byte_at edit6 i ≡ byte_at f0 i
  byte_at-edit6 i h =
      get_or-write_ne edit5 10 (bytes16 ck) i (inr (omega arith))
      ∙ get_or-write_ne (set edit3 10 0) 11 (0 ∷ []) i (inr (omega arith))
      ∙ get_or-write_ne edit3 10 (0 ∷ []) i (inr (omega arith))
      ∙ get_or-write_ne edit2 6 (bytes16 fo) i (omega arith)
      ∙ get_or-write_ne edit1 4 (bytes16 id) i (omega arith)
      ∙ get_or-write_ne f0 2 (bytes16 (length f0)) i (omega arith)

  range-edit6 : 20 ≤ length f0 → range edit6 12 20 ≡ range f0 12 20
  range-edit6 h =
      let len3 = length-edit3 in
      let len5 = length-edit5 in
      range-write_ne edit5 10 (bytes16 ck) 12 20 (inl (omega arith)) (omega arith)
      ∙ range-write_ne (set edit3 10 0) 11 (0 ∷ []) 12 20 (inl (omega arith))
          (omega (arith, length-set edit3 10 0))
      ∙ range-write_ne edit3 10 (0 ∷ []) 12 20 (inl (omega arith)) (omega arith)
      ∙ range-write_ne edit2 6 (bytes16 fo) 12 20 (inl (omega arith)) (
          omega (arith, length-write edit1 4 (bytes16 id), length-write f0 2 (bytes16 (length f0))))
      ∙ range-write_ne edit1 4 (bytes16 id) 12 20 (inl (omega arith))
          (omega (arith, length-write f0 2 (bytes16 (length f0))))
      ∙ range-write_ne f0 2 (bytes16 (length f0)) 12 20 (inl (omega arith)) h

-- What the edits leave of the header that was copied from `b`.
module _ (b : Bytes) (ihl : ℕ) (bd : Bytes) (least : 20 ≤ ihl) (fits : ihl ≤ length b) where
  length-header : length (range b 0 ihl) ≡ ihl
  length-header = omega (arith, length-range b 0 ihl)

  header-byte : (i : ℕ) → i < 20 → byte_at (range b 0 ihl ++ bd) i ≡ byte_at b i
  header-byte i h =
      ground
        (arith, length-header, get_or-append_left (range b 0 ihl) bd i 0, get_or-range b 0 ihl i)

  header-range : range (range b 0 ihl ++ bd) 12 20 ≡ range b 12 20
  header-range =
      range-append (range b 0 ihl) bd 12 20 (omega (arith, length-header))
      ∙ range-take b ihl 12 20 least (omega arith)

  header-drop : drop ihl (range b 0 ihl ++ bd) ≡ bd
  header-drop =
      ap (λ (n : ℕ). drop n (range b 0 ihl ++ bd)) (sym length-header)
      ∙ drop-append (range b 0 ihl) bd

-- `fragment4` succeeds, and its fragment is the part that it is called for.
pub fragment4-IsPart :
    (b : Bytes) (ihl : ℕ) (payload : Bytes) (id : ℕ) (reserved : Bool) (off n : ℕ) (more : Bool)
    → 20 ≤ ihl
    → ihl ≤ length b
    → off + n ≤ length payload
    → ihl + n < 65536
    → off < 65536
    → id < 65536
    → (s : Bytes) × (fragment4 b ihl payload id reserved off n more ≡ ok s)
      × IsPart b ihl payload id reserved off n more s
unfolding fragment4
fragment4-IsPart b ihl payload id reserved off n more least fits room small near small_id =
    let bd = range payload off (off + n) in
    let f0 = range b 0 ihl ++ bd in
    let at_off = if reserved then set_bit (u16 (off / 8)) 15 else u16 (off / 8) in
    let fo = if more then set_bit at_off 13 else at_off in
    let five = edit5 ihl id fo 0 f0 in
    let ck = ipv4_header_checksum (range five 0 ihl) in
    let len_b : length bd ≡ n = omega (arith, length-range payload off (off + n)) in
    let len0 : length f0 ≡ ihl + n =
      omega (arith, length-append (range b 0 ihl) bd, length-header b ihl bd least fits, len_b) in
    let flags : fo ≡ offset_field reserved off more = ground arith in
    let s = edit6 ihl id fo ck f0 in
    let e1 = edit1 ihl id fo ck f0 in
    let e2 = edit2 ihl id fo ck f0 in
    let e3 = edit3 ihl id fo ck f0 in
    let len1 : length e1 ≡ ihl + n = length-write f0 2 (bytes16 (length f0)) ∙ len0 in
    let len2 : length e2 ≡ ihl + n = length-write e1 4 (bytes16 id) ∙ len1 in
    let len3 : length e3 ≡ ihl + n = length-edit3 ihl id fo ck f0 ∙ len0 in
    let len5 : length five ≡ ihl + n = length-edit5 ihl id fo 0 f0 ∙ len0 in
    (
      s,
      ground (arith, len0, len1, len2, len3, len5, length-set e3 10 0),
      (
        length-edit6 ihl id fo ck f0 ∙ len0,
        drop-edit6 ihl id fo ck f0 least ∙ header-drop b ihl bd least fits,
        be16-edit6 ihl id fo ck f0 2 (omega arith)
            ∙ be16-write_ne e2 6 (bytes16 fo) 2 (inr (omega arith))
            ∙ be16-write_ne e1 4 (bytes16 id) 2 (inr (omega arith))
            ∙ be16-write f0 2 (length f0) (omega (arith, len0)) (omega (arith, len0))
            ∙ len0,
        be16-edit6 ihl id fo ck f0 4 (omega arith)
            ∙ be16-write_ne e2 6 (bytes16 fo) 4 (inr (omega arith))
            ∙ be16-write e1 4 id (omega (arith, len1)) small_id,
        be16-edit6 ihl id fo ck f0 6 (omega arith)
            ∙ be16-write e2 6 fo (omega (arith, len2)) (ground arith)
            ∙ flags,
        byte_at-edit6 ihl id fo ck f0 0 (inl (omega arith))
            ∙ header-byte b ihl bd least fits 0 (omega arith),
        byte_at-edit6 ihl id fo ck f0 9 (inr (omega arith))
            ∙ header-byte b ihl bd least fits 9 (omega arith),
        range-edit6 ihl id fo ck f0 (omega (arith, len0)) ∙ header-range b ihl bd least fits,
      ),
    )
