-- ===== src/Dns/Safety.antt =====
-- internal/domain/dns.go: the reads of `ParseDNSResponse` and the loops of `readName`.
use split_wire.Prelude.{
  Bool, Bytes, List, Outcome, Returns, Returns-Yields, Yields, Yields-Returns, Yields-bind, [],
  arith, be16, be32, byte_at, dec_le, false, if◌then◌else◌, length, low_bits, ok, range, suc, zero,
  ℕ, ◌*◌, ◌++◌, ◌+◌, ◌<◌, ◌==◌, ◌>>=◌, ◌^◌, ◌||◌, ◌∷◌, ◌≤◌,
}
use split_wire.Dns.{
  labels, Error, read_name, join_label, Answer, Progress, addresses, canonical, questions,
  read_answers, parse_dns_response, collect,
}

labels-Returns :
    (follow : ℕ → Outcome Error (Bytes × ℕ)) (fuel : ℕ) (msg : Bytes) (off : ℕ) (out : Bytes)
    → ((p : ℕ) → Returns (follow p))
    → 0 < fuel
    → length msg < fuel + off
    → Returns (labels follow fuel msg off out)
unfolding labels
labels-Returns follow zero msg off out h pos enough = absurd (omega arith)
labels-Returns follow (suc fuel) msg off out h pos enough = ground (
  arith,
  h (low_bits (byte_at msg off) 6 * 2 ^ 8 + byte_at msg (off + 1)),
  labels-Returns follow fuel msg (off + 1 + byte_at msg off)
      (join_label out (range msg (off + 1) (off + 1 + byte_at msg off))) h,
)

pub read_name-Returns : (levels : ℕ) (msg : Bytes) (off : ℕ) → Returns (read_name levels msg off)
unfolding read_name
read_name-Returns zero msg off = tt
read_name-Returns (suc levels) msg off =
    labels-Returns (read_name levels msg) (suc (length msg)) msg off []
      (read_name-Returns levels msg) (omega arith) (omega arith)

-- The data of every answer lie within the message.
abbrev pub IsInside : Bytes → List Answer → Type 0
IsInside msg [] = Unit {0}
IsInside msg (a ∷ rest) = (a.rdata_off + a.rdlen ≤ length msg) × IsInside msg rest

IsInside-append :
    (msg : Bytes) (xs : List Answer) (a : Answer)
    → IsInside msg xs
    → a.rdata_off + a.rdlen ≤ length msg
    → IsInside msg (xs ++ a ∷ [])
IsInside-append msg [] a h l = (l, tt)
IsInside-append msg (x ∷ xs) a h l = (h.0, IsInside-append msg xs a h.1 l)

abbrev Inside : Bytes → Progress → Type 0
Inside msg s = IsInside msg s.answers

questions-Inside :
    (match : Bytes → Bool) (msg : Bytes) (left : ℕ) (s : Progress)
    → Inside msg s
    → Yields (Inside msg) (questions match msg left s)
unfolding questions
questions-Inside match msg zero s h = h
questions-Inside match msg (suc left) s h =
    Yields-bind (λ r. Unit {0}) (Inside msg) (read_name 17 msg s.off) _
      (Returns-Yields (read_name 17 msg s.off) (read_name-Returns 17 msg s.off))
      λ r u.
        let s' : Progress = record s {
          off = r.1 + 4;
          matched = s.matched || match r.0;
          names = s.names ++ r.0 ∷ [];
        } in
        ground (arith, questions-Inside match msg left s' h)

canonical-Inside :
    (match : Bytes → Bool) (msg : Bytes) (rdata : ℕ) (s : Progress)
    → Inside msg s
    → Yields (Inside msg) (canonical match msg rdata s)
unfolding canonical
canonical-Inside match msg rdata s h = ground (arith, read_name-Returns 17 msg rdata)

read_answers-Inside :
    (match : Bytes → Bool) (msg : Bytes) (left : ℕ) (s : Progress)
    → Inside msg s
    → Yields (Inside msg) (read_answers match msg left s)
unfolding read_answers
read_answers-Inside match msg zero s h = h
read_answers-Inside match msg (suc left) s h =
    Yields-bind (λ r. Unit {0}) (Inside msg) (read_name 17 msg s.off) _
      (Returns-Yields (read_name 17 msg s.off) (read_name-Returns 17 msg s.off))
      λ r u.
        let a : Answer = record {
          typ = be16 msg r.1;
          ttl = be32 msg (r.1 + 4);
          rdata_off = r.1 + 10;
          rdlen = be16 msg (r.1 + 8);
        } in
        let s' : Progress = record s {
          off = r.1 + 10 + be16 msg (r.1 + 8);
          matched = s.matched || match r.0;
          answers = s.answers ++ a ∷ [];
        } in
        elim (dec_le (r.1 + 10 + be16 msg (r.1 + 8)) (length msg)) [
          | no out ↦ ground arith
          | yes fits ↦
              let inside : Inside msg s' = IsInside-append msg s.answers a h fits in
              let next : Yields (Inside msg)
                  (if a.typ == 5 then canonical match msg (r.1 + 10) s' else ok s') =
                ground (arith, inside, canonical-Inside match msg (r.1 + 10) s' inside) in
              let rest =
                Yields-bind (Inside msg) (Inside msg) _ (read_answers match msg left) next
                  (λ t g. read_answers-Inside match msg left t g) in
              ground (arith, rest)
        ]

addresses-Returns :
    (msg : Bytes) (answers : List Answer) (least : ℕ)
    → IsInside msg answers
    → Returns (addresses msg answers least)
unfolding addresses
addresses-Returns msg [] least h = tt
addresses-Returns msg (a ∷ rest) least h =
    ground (arith, addresses-Returns msg rest least h.1, addresses-Returns msg rest a.ttl h.1)

collect-Returns : (msg : Bytes) (t : Progress) → Inside msg t → Returns (collect msg t)
unfolding collect
collect-Returns msg t h = ground (arith, addresses-Returns msg t.answers 86400 h)

-- For every message and every set of names the parser returns: it has a result or an error value, and
-- neither reads out of range nor runs out of fuel, also where pointers form a circle.
pub parse_dns_response-Returns :
    (msg : Bytes) (match : Bytes → Bool) → Returns (parse_dns_response msg match)
unfolding parse_dns_response
parse_dns_response-Returns msg match =
    let start : Progress = record { off = 12; matched = false; names = []; answers = [] } in
    let chain =
      Yields-bind (Inside msg) (λ r. Unit {0}) (questions match msg (be16 msg 4) start)
        (λ s. read_answers match msg (be16 msg 6) s >>= λ t. collect msg t)
        (questions-Inside match msg (be16 msg 4) start tt)
        (λ s h.
          Yields-bind (Inside msg) (λ r. Unit {0}) (read_answers match msg (be16 msg 6) s)
            (collect msg) (read_answers-Inside match msg (be16 msg 6) s h)
            (λ t g. Returns-Yields (collect msg t) (collect-Returns msg t g))) in
    let returns =
      Yields-Returns (λ r. Unit {0})
        (questions match msg (be16 msg 4) start >>= λ s.
          read_answers match msg (be16 msg 6) s >>= λ t. collect msg t)
        chain in
    ground (arith, returns)
