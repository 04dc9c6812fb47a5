-- ===== src/Wireguard/Agreement/Reads.antt =====
-- internal/wireguard/client.go: the messages of the handshake, and what the ends read in them.
use split_wire.Wireguard.Handshake.{initiation_body, Suite}
use split_wire.Prelude.{
  Bytes, ap, arith, length, length-append, range, refl, sym, take, ℕ, ◌++◌, ◌<◌, ◌^◌, ◌∙◌, ◌≡◌,
}
use split_wire.Cryptox.Words.{le_bytes}
use split_wire.Wireguard.Client.{le_number}
use split_wire.Wireguard.Parts.{
  append_assoc, range-append_here, range-append_next, range-part_1, range-part_2, range-part_3,
}

-- The messages, with their parts one after another.
abbrev pub initiation : ℕ → Bytes → Bytes → Bytes → Bytes → Bytes
initiation sender epub static time macs =
    le_bytes 4 1 ++ (le_bytes 4 sender ++ (epub ++ (static ++ (time ++ macs))))

abbrev pub response : ℕ → ℕ → Bytes → Bytes → Bytes → Bytes
response index sender epub empty macs =
    le_bytes 4 2 ++ (le_bytes 4 index ++ (le_bytes 4 sender ++ (epub ++ (empty ++ macs))))

pub index_read :
    (k n : ℕ) (rest : Bytes)
    → n < 2 ^ 32
    → le_number 4 (le_bytes 4 k ++ (le_bytes 4 n ++ rest)) 4 ≡ n
unfolding le_number
index_read k n rest h = omega arith

-- The parts of a message in a row.
pub initiation_flat :
    (suite : Suite) (sender : ℕ) (epub static time mac1 rest : Bytes)
    → (initiation_body suite sender epub static time ++ mac1) ++ rest
      ≡ initiation sender epub static time (mac1 ++ rest)
initiation_flat suite sender epub static time mac1 rest = simp append_assoc refl

pub response_flat :
    (index sender : ℕ) (epub empty mac1 rest : Bytes)
    → (le_bytes 4 2 ++ (le_bytes 4 index ++ (le_bytes 4 sender ++ (epub ++ empty))) ++ mac1) ++ rest
      ≡ response index sender epub empty (mac1 ++ rest)
response_flat index sender epub empty mac1 rest = simp append_assoc refl

-- What the two ends find at the places of the messages.
module _ (sender : ℕ) (epub static time macs : Bytes) (ne : length epub ≡ 32)
    (ns : length static ≡ 48) (nt : length time ≡ 28) where
  pub initiation_reads :
      (range (initiation sender epub static time macs) 8 40 ≡ epub)
      × (range (initiation sender epub static time macs) 40 88 ≡ static)
      × (range (initiation sender epub static time macs) 88 116 ≡ time)
  initiation_reads =
      let header : Bytes = le_bytes 4 1 ++ le_bytes 4 sender in
      (
        range-part_1 header epub static (time ++ macs) 8 refl 40 ne (omega arith),
        range-part_2 header epub static (time ++ macs) 8 refl 40 88 ne (omega arith) ns
            (omega arith),
        range-part_3 header epub static macs 8 refl time 40 88 116 ne (omega arith) ns (omega arith)
            nt (omega arith),
      )

module _ (index sender : ℕ) (epub empty mac1 rest : Bytes) (ne : length epub ≡ 32)
    (nm : length empty ≡ 16) (nc : length mac1 ≡ 16) where
  pub response_reads :
      (take 60 (response index sender epub empty (mac1 ++ rest))
        ≡ le_bytes 4 2 ++ (le_bytes 4 index ++ (le_bytes 4 sender ++ (epub ++ empty))))
      × (range (response index sender epub empty (mac1 ++ rest)) 60 76 ≡ mac1)
      × (range (response index sender epub empty (mac1 ++ rest)) 12 44 ≡ epub)
      × (range (response index sender epub empty (mac1 ++ rest)) 44 60 ≡ empty)
  response_reads =
      let header : Bytes = le_bytes 4 2 ++ (le_bytes 4 index ++ le_bytes 4 sender) in
      let body : Bytes =
        le_bytes 4 2 ++ (le_bytes 4 index ++ (le_bytes 4 sender ++ (epub ++ empty))) in
      let size : length body ≡ 60 = omega (arith, length-append epub empty) in
      (
        ap (λ (b : Bytes). take 60 b)
              (sym (
                append_assoc header (epub ++ empty) (mac1 ++ rest)
                ∙ ap (λ (b : Bytes). header ++ b) (append_assoc epub empty (mac1 ++ rest))))
            ∙ range-append_here body (mac1 ++ rest) 60 size,
        range-part_3 header epub empty rest 12 refl mac1 44 60 76 ne (omega arith) nm (omega arith)
            nc (omega arith),
        range-part_1 header epub empty (mac1 ++ rest) 12 refl 44 ne (omega arith),
        range-part_2 header epub empty (mac1 ++ rest) 12 refl 44 60 ne (omega arith) nm
            (omega arith),
      )

-- The initiation up to its first MAC, and this MAC.
pub initiation_checked :
    (body mac1 rest : Bytes)
    → length body ≡ 116
    → length mac1 ≡ 16
    → (take 116 ((body ++ mac1) ++ rest) ≡ body) × (range ((body ++ mac1) ++ rest) 116 132 ≡ mac1)
initiation_checked body mac1 rest size nm =
    let flat = append_assoc body mac1 rest in
    (
      ap (λ (b : Bytes). take 116 b) flat ∙ range-append_here body (mac1 ++ rest) 116 size,
      ap (λ (b : Bytes). range b 116 132) flat
          ∙ range-append_next body (mac1 ++ rest) 116 116 132 size (omega arith)
          ∙ range-append_here mac1 rest 16 nm,
    )
