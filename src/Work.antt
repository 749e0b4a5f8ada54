-- ===== src/Work.antt =====
-- sunyata.go: Work, a 256-bit number. `NumHashes [32]byte` is read and written by the code as four
-- big-endian 64-bit words, so it is kept as these words, `n0` (the bytes from 0) the highest.
-- `none` is a panic.
pub mod Arithmetic
pub mod Target
use sunyata.Common.{
  ℕ, zero, suc, ◌+◌, ◌-◌, ◌*◌, ◌/◌, ◌%◌, ◌^◌, ◌<◌, Bool, true, false, ◌&&◌, ◌||◌, Option, none,
  some, List, [], ◌∷◌, length, ltb, ◌==◌, if◌then◌else◌,
}
use sunyata.Common.Word.{add64, sub64, mul64, div64}
use sunyata.Currency.{Sign, less, same, greater}
use sunyata.Types.{BlockId}

pub record Work : Type 0 where
  pub n0 : ℕ
  pub n1 : ℕ
  pub n2 : ℕ
  pub n3 : ℕ

pub record IsWork (w : Work) : Type 0 where
  pub fits0 : w.n0 < 2 ^ 64
  pub fits1 : w.n1 < 2 ^ 64
  pub fits2 : w.n2 < 2 ^ 64
  pub fits3 : w.n3 < 2 ^ 64

-- The expected number of hashes.
abbrev pub hashes : Work → ℕ
hashes w = ((w.n0 * 2 ^ 64 + w.n1) * 2 ^ 64 + w.n2) * 2 ^ 64 + w.n3

-- Work.Add: the loop from the lowest word, with the carry.
unfoldable pub add : Work → Work → Work
add w v =
    let (s3, c3) = add64 w.n3 v.n3 0 in
    let (s2, c2) = add64 w.n2 v.n2 c3 in
    let (s1, c1) = add64 w.n1 v.n1 c2 in
    let (s0, c0) = add64 w.n0 v.n0 c1 in record { n0 = s0; n1 = s1; n2 = s2; n3 = s3 }

-- Work.Sub
unfoldable pub sub : Work → Work → Work
sub w v =
    let (s3, c3) = sub64 w.n3 v.n3 0 in
    let (s2, c2) = sub64 w.n2 v.n2 c3 in
    let (s1, c1) = sub64 w.n1 v.n1 c2 in
    let (s0, c0) = sub64 w.n0 v.n0 c1 in record { n0 = s0; n1 = s1; n2 = s2; n3 = s3 }

-- One round of Work.Mul64: the word and the carry out, `hi + cc` on uint64.
unfoldable pub mul_step : ℕ → ℕ → ℕ → ℕ × ℕ
mul_step wi v c =
    let (hi, prod) = mul64 wi v in let (prod', cc) = add64 prod c 0 in (prod', (hi + cc) % 2 ^ 64)

-- Work.Mul64
unfoldable pub mul_64 : Work → ℕ → Work
mul_64 w v =
    let (p3, c3) = mul_step w.n3 v 0 in
    let (p2, c2) = mul_step w.n2 v c3 in
    let (p1, c1) = mul_step w.n1 v c2 in
    let (p0, c0) = mul_step w.n0 v c1 in record { n0 = p0; n1 = p1; n2 = p2; n3 = p3 }

infixl 5 ◌>>=◌
abbrev ◌>>=◌ : {A B : Type 0} → Option A → (A → Option B) → Option B
none >>= f = none
some a >>= f = f a

-- Work.Div64
unfoldable pub div_64 : Work → ℕ → Option Work
div_64 w v = do
  (q0, r0) ← div64 0 w.n0 v
  (q1, r1) ← div64 r0 w.n1 v
  (q2, r2) ← div64 r1 w.n2 v
  (q3, r3) ← div64 r2 w.n3 v
  some (record { n0 = q0; n1 = q1; n2 = q2; n3 = q3 })

-- Work.Cmp: `bytes.Compare` of the big-endian representations.
unfoldable pub cmp : Work → Work → Sign
cmp w v =
    if ltb w.n0 v.n0
    then less
    else if ltb v.n0 w.n0
    then greater
    else if ltb w.n1 v.n1
    then less
    else if ltb v.n1 w.n1
    then greater
    else if ltb w.n2 v.n2
    then less
    else if ltb v.n2 w.n2
    then greater
    else if ltb w.n3 v.n3
    then less
    else if ltb v.n3 w.n3
    then greater
    else same

-- `big.Int.SetBytes`
unfoldable pub big_endian : List ℕ → ℕ
big_endian [] = 0
big_endian (b ∷ bs) = b * 256 ^ length bs + big_endian bs

-- `quo.FillBytes` of a number below 2^256, into the words of a Work.
unfoldable pub from_number : ℕ → Work
from_number x = record {
  n0 = x / 2 ^ 192 % 2 ^ 64;
  n1 = x / 2 ^ 128 % 2 ^ 64;
  n2 = x / 2 ^ 64 % 2 ^ 64;
  n3 = x % 2 ^ 64;
}

-- `quo.FillBytes` into an array of `n` bytes.
unfoldable pub fill_bytes : ℕ → ℕ → List ℕ
fill_bytes zero x = []
fill_bytes (suc n) x = (x / 256 ^ n % 256) ∷ fill_bytes n x

-- WorkRequiredForHash. The comparisons of `id` with constant arrays are comparisons of its number.
unfoldable pub work_required_for_hash : BlockId → Option Work
work_required_for_hash id =
    if big_endian id == 0
    then none
    else if big_endian id == 1
    then some (from_number (2 ^ 256 - 1))
    else some (from_number (2 ^ 256 / big_endian id))

-- HashRequiringWork
unfoldable pub hash_requiring_work : Work → Option BlockId
hash_requiring_work w =
    if hashes w == 0
    then none
    else if hashes w == 1
    then some (fill_bytes 32 (2 ^ 256 - 1))
    else some (fill_bytes 32 (2 ^ 256 / hashes w))

-- `bytes.Compare(a, b) <= 0`
unfoldable pub bytes_le : List ℕ → List ℕ → Bool
bytes_le [] ys = true
bytes_le (x ∷ xs) [] = false
bytes_le (x ∷ xs) (y ∷ ys) = ltb x y || ((x == y) && bytes_le xs ys)

-- BlockID.MeetsTarget
unfoldable pub meets_target : BlockId → BlockId → Bool
meets_target bid t = bytes_le bid t
