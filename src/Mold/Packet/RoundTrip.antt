-- ===== src/Mold/Packet/RoundTrip.antt =====
-- What is written as a datagram is read back as it was.
use itchbook.Base.{
  ℕ, zero, suc, ◌+◌, ◌^◌, ◌≤◌, ◌<◌, ◌≡◌, refl, sym, ap, ◌∙◌, false, some, List, [], ◌∷◌, ◌++◌,
  arith, ltb, length, length-append,
}
use mathlib.Core.List.{append_assoc}
use itchbook.Mold.Bytes.{
  Bytes, take_bytes, drop_bytes, be16, be64, write_be16, write_be64, be_bytes, be16-write,
  be64-write,
}
use itchbook.Mold.Packet.{
  header_len, session_len, parse_header, pad_session, write_header, next_block, blocks, write_block,
  write_blocks,
}

length-pad_session : (n : ℕ) (xs : Bytes) → length (pad_session n xs) ≡ n
unfolding pad_session
length-pad_session zero xs = refl
length-pad_session (suc n) [] = omega (arith, length-pad_session n [])
length-pad_session (suc n) (x ∷ xs) = omega (arith, length-pad_session n xs)

pub take_bytes-append : (n : ℕ) (xs ys : Bytes) → length xs ≡ n → take_bytes n (xs ++ ys) ≡ xs
take_bytes-append zero [] ys e = refl
take_bytes-append zero (x ∷ xs) ys e = absurd (omega arith)
take_bytes-append (suc n) [] ys e = absurd (omega arith)
take_bytes-append (suc n) (x ∷ xs) ys e = ap (λ w. x ∷ w) (take_bytes-append n xs ys (omega arith))

pub drop_bytes-append : (n : ℕ) (xs ys : Bytes) → length xs ≡ n → drop_bytes n (xs ++ ys) ≡ ys
drop_bytes-append zero [] ys e = refl
drop_bytes-append zero (x ∷ xs) ys e = absurd (omega arith)
drop_bytes-append (suc n) [] ys e = absurd (omega arith)
drop_bytes-append (suc n) (x ∷ xs) ys e = drop_bytes-append n xs ys (omega arith)

length-write_be64 : (v : ℕ) → length (write_be64 v) ≡ 8
unfolding write_be64 be_bytes
length-write_be64 v = refl

pub length-write_be16 : (v : ℕ) → length (write_be16 v) ≡ 2
unfolding write_be16 be_bytes
length-write_be16 v = refl

pub length-write_header :
    (session : Bytes) (sequence count : ℕ)
    → length (write_header session sequence count) ≡ header_len
unfolding write_header
length-write_header session sequence count = omega (
  arith,
  length-append {0} (pad_session session_len session) (write_be64 sequence ++ write_be16 count),
  length-append {0} (write_be64 sequence) (write_be16 count),
  length-pad_session session_len session,
  length-write_be64 sequence,
  length-write_be16 count,
)

parsed :
    (p session : Bytes) (sequence count : ℕ)
    → header_len ≤ length p
    → take_bytes session_len p ≡ session
    → be64 (drop_bytes session_len p) ≡ sequence
    → be16 (drop_bytes (session_len + 8) p) ≡ count
    → parse_header p ≡ some (record { session = session; sequence = sequence; count = count })
unfolding parse_header
parsed p session sequence count l a b c =
    let t : ltb (length p) header_len ≡ false = ground arith in
    let q : ℕ = be64 (drop_bytes session_len p) in
    rw t (
      ap
        (λ x.
          some
            (record { session = x; sequence = q; count = be16 (drop_bytes (session_len + 8) p) }))
        a
      ∙ ap
          (λ x. some (record {
            session = session;
            sequence = x;
            count = be16 (drop_bytes (session_len + 8) p);
          }))
          b
      ∙ ap (λ x. some (record { session = session; sequence = sequence; count = x })) c)

-- A header that was written is parsed to its session, padded or cut to ten bytes, its sequence and
-- its count, if these fit their fields, whatever stands behind it.
pub parse_header-write :
    (session : Bytes) (sequence count : ℕ) (rest : Bytes)
    → sequence < 2 ^ 64
    → count < 2 ^ 16
    → parse_header (write_header session sequence count ++ rest)
      ≡ some
          (record { session = pad_session session_len session; sequence = sequence; count = count })
unfolding write_header
parse_header-write session sequence count rest h k =
    let pad = pad_session session_len session in
    let w = write_be64 sequence in
    let c = write_be16 count in
    let p = pad ++ (w ++ (c ++ rest)) in
    let lp = length-pad_session session_len session in
    let lw = length-write_be64 sequence in
    let lc = length-write_be16 count in
    let e1 : (pad ++ (w ++ c)) ++ rest ≡ p =
      append_assoc pad (w ++ c) rest ∙ ap (λ z. pad ++ z) (append_assoc w c rest) in
    let long : header_len ≤ length p = omega (
      arith,
      length-append {0} pad (w ++ (c ++ rest)),
      length-append {0} w (c ++ rest),
      length-append {0} c rest,
    ) in
    let d : drop_bytes session_len p ≡ w ++ (c ++ rest) = drop_bytes-append 10 pad _ lp in
    let d' : drop_bytes (session_len + 8) p ≡ c ++ rest =
      ap (drop_bytes 18) (sym (append_assoc pad w (c ++ rest)))
      ∙ drop_bytes-append 18 (pad ++ w) (c ++ rest) (omega (arith, length-append {0} pad w)) in
    ap parse_header e1
    ∙ parsed p pad sequence count long (take_bytes-append 10 pad _ lp)
        (ap be64 d ∙ be64-write sequence (c ++ rest) h) (ap be16 d' ∙ be16-write count rest k)

-- The block at the front of a packet that is long enough for it.
next_block-hit :
    (p : Bytes) (n : ℕ)
    → be16 p ≡ n
    → 2 + n ≤ length p
    → next_block p ≡ some (take_bytes n (drop_bytes 2 p), drop_bytes (2 + n) p)
unfolding next_block
next_block-hit p n b l =
    let t : ltb (length p) 2 ≡ false = ground arith in
    let u : ltb (length p) (2 + n) ≡ false = ground arith in rw (b, t, u) refl

pub next_block-write :
    (m rest : Bytes) → length m < 2 ^ 16 → next_block (write_block m ++ rest) ≡ some (m, rest)
unfolding write_block
next_block-write m rest f =
    let w = write_be16 (length m) in
    let lw = length-write_be16 (length m) in
    let p = w ++ (m ++ rest) in
    let e : (w ++ m) ++ rest ≡ p = append_assoc w m rest in
    let long : 2 + length m ≤ length p =
      omega (arith, length-append {0} w (m ++ rest), length-append {0} m rest) in
    let d : drop_bytes 2 p ≡ m ++ rest = drop_bytes-append 2 w (m ++ rest) lw in
    let d' : drop_bytes (2 + length m) p ≡ rest =
      ap (drop_bytes (2 + length m)) (sym e)
      ∙ drop_bytes-append (2 + length m) (w ++ m) rest (omega (arith, length-append {0} w m)) in
    ap next_block e
    ∙ next_block-hit p (length m) (be16-write (length m) (m ++ rest) f) long
    ∙ ap (λ x. some (take_bytes (length m) x, drop_bytes (2 + length m) p)) d
    ∙ ap (λ x. some (x, drop_bytes (2 + length m) p)) (take_bytes-append (length m) m rest refl)
    ∙ ap (λ x. some (m, x)) d'

blocks-cons :
    (n : ℕ) (rest rest' : Bytes) (m : Bytes) (ms : List Bytes) (k : ℕ)
    → next_block rest ≡ some (m, rest')
    → blocks n rest' ≡ (ms, k)
    → blocks (suc n) rest ≡ (m ∷ ms, k)
unfolding blocks
blocks-cons n rest rest' m ms k e f = rw (e, blocks) (ap (λ x. (m ∷ x.0, x.1)) f)

-- Each message fits a 16-bit length field.
abbrev pub Fits : List Bytes → Type 0
Fits [] = Unit {0}
Fits (m ∷ ms) = (length m < 2 ^ 16) × Fits ms

-- The block iterator reads back the blocks that were written, if each message fits its length
-- field, and leaves none unread, whatever stands behind them.
pub blocks-write :
    (ms : List Bytes) (rest : Bytes)
    → Fits ms
    → blocks (length ms) (write_blocks ms ++ rest) ≡ (ms, 0)
unfolding blocks write_blocks
blocks-write [] rest f = refl
blocks-write (m ∷ ms) rest (f, fs) =
    let e : (write_block m ++ write_blocks ms) ++ rest
        ≡ write_block m ++ (write_blocks ms ++ rest) =
      append_assoc (write_block m) (write_blocks ms) rest in
    blocks-cons (length ms) ((write_block m ++ write_blocks ms) ++ rest) (write_blocks ms ++ rest) m
      ms 0 (ap next_block e ∙ next_block-write m (write_blocks ms ++ rest) f)
      (blocks-write ms rest fs)
