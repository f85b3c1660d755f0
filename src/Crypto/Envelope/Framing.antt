-- ===== src/Crypto/Envelope/Framing.antt =====
-- The plaintext length of a chunked file, from its stored length: `multipart_plaintext_len` of
-- crypto/src/envelope.rs.
use signet_drive.Base.{ℕ, suc, ◌+◌, ◌-◌, ◌*◌, ◌/◌, ◌%◌, ◌^◌, ◌≤◌, ◌<◌, ◌≡◌, arith, ◌⊎◌}
use signet_drive.Base.{max, inl, inr, some}
use signet_drive.Crypto.Envelope.{multipart_plaintext_len}
use Prim.Native.Nat.{zero}
use native.Mathlib.Nat.{mul-add}

-- A file of `p` bytes has `n` chunks of at most `cs` bytes: as many as it takes, and one if it is
-- empty.
pub record IsFraming (p cs n : ℕ) : Type 0 where
  pub some_chunk : 1 ≤ n
  pub all_fit : p ≤ n * cs
  pub none_spare : (n ≡ 1) ⊎ ((n - 1) * cs < p)

div_between :
    (c per n : ℕ) → 1 ≤ per → 1 ≤ n → (n - 1) * per < c → c ≤ n * per → (c + (per - 1)) / per ≡ n
div_between c per n pos one lo hi = grind arith

-- (n - 1) * (cs + 34), with the product multiplied out.
below_last : (p cs n : ℕ) → IsFraming p cs n → (n - 1) * (cs + 34) < p + 34 * n
below_last p cs zero f = absurd (omega (arith, f.some_chunk))
below_last p cs (suc m) f = elim (f.none_spare) [
  | inl one ↦ let none_before : m ≡ 0 = omega arith in rw none_before (omega arith)
  | inr more ↦ omega (arith, mul-add m cs 34, more)
]

up_to_last : (p cs n : ℕ) → IsFraming p cs n → p + 34 * n ≤ n * (cs + 34)
up_to_last p cs n f = omega (arith, mul-add n cs 34, f.all_fit)

-- A file of `p` bytes stored in as many chunks of at most `cs` bytes as it takes, `n`, or in one if it
-- is empty, has `p + 34 * n` bytes on disk, and `multipart_plaintext_len` computes `p` from that and
-- `cs`, where `cs` is not 0 and neither `cs + 34` nor the stored length reaches 2^64.
pub multipart_plaintext_len-framing :
    (p cs n : ℕ)
    → 1 ≤ cs
    → cs + 34 < 2 ^ 64
    → p + 34 * n < 2 ^ 64
    → IsFraming p cs n
    → multipart_plaintext_len (p + 34 * n) cs ≡ some p
unfolding multipart_plaintext_len
multipart_plaintext_len-framing p cs n pos fits stored f =
    let per : (cs + 34) % 2 ^ 64 ≡ cs + 34 = omega arith in
    let chunks : (p + 34 * n + (cs + 34 - 1)) / (cs + 34) ≡ n =
      div_between (p + 34 * n) (cs + 34) n (omega arith) f.some_chunk (below_last p cs n f)
        (up_to_last p cs n f) in
    let one : max n 1 ≡ n = omega (arith, f.some_chunk) in
    rw (per, chunks) (rw one (ground (arith, f.some_chunk)))

-- Dividing with the remainder rounded up.
ceil_bounds :
    (c per : ℕ)
    → 1 ≤ per
    → (c ≤ (c + (per - 1)) / per * per) × ((c + (per - 1)) / per * per ≤ c + (per - 1))
ceil_bounds c per pos = grind arith

-- With at least one chunk of overhead stored the quotient is not 0, and the framing fits the word.
quotient_bounds :
    (c cs n : ℕ)
    → 34 ≤ c
    → c ≤ n * (cs + 34)
    → n * (cs + 34) ≤ c + (cs + 33)
    → c + cs + 34 < 2 ^ 64
    → (1 ≤ n) × (c ≤ n * cs + 34 * n) × (n * 34 < 2 ^ 64)
quotient_bounds c cs zero long lo hi fits = absurd (omega arith)
quotient_bounds c cs (suc m) long lo hi fits =
    let split = mul-add (suc m) cs 34 in (omega arith, omega (arith, split), omega (arith, split))

-- Whatever `multipart_plaintext_len` returns is the stored length less 34 bytes for each of a
-- number of chunks that is positive, and fits in that many chunks of `cs` bytes.
pub multipart_plaintext_len_sound :
    (c cs p : ℕ)
    → cs + 34 < 2 ^ 64
    → c + cs + 34 < 2 ^ 64
    → multipart_plaintext_len c cs ≡ some p
    → (n : ℕ) × (1 ≤ n) × (c ≡ p + 34 * n) × (p ≤ n * cs)
unfolding multipart_plaintext_len
multipart_plaintext_len_sound c cs p fits stored e =
    let per : (cs + 34) % 2 ^ 64 ≡ cs + 34 = omega arith in
    let q : ℕ = (c + (cs + 34 - 1)) / (cs + 34) in
    let (lo, hi) = ceil_bounds c (cs + 34) (omega arith) in
    let guard : 34 ≤ c = ground arith in
    let (one, up, word) = quotient_bounds c cs q guard lo (omega (arith, hi)) stored in
    let same : max q 1 ≡ q = omega (arith, one) in
    let left : c ≡ p + 34 * q = ground (arith, per, same, word, e) in
    (q, one, left, omega (arith, up, left))
