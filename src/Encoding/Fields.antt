-- ===== src/Encoding/Fields.antt =====
-- Reading back what was written, field by field: words, hashes, amounts, lists with a prefix.
use mathlib.Core.Option.{some}
use sunyata.Common.{
  ℕ, zero, suc, ◌/◌, ◌^◌, ◌≤◌, ◌<◌, ◌≡◌, refl, ap, arith, List, [], ◌∷◌, ◌++◌, append_assoc, length,
  length-append, take, drop, All, ltb, false, subst,
}
use sunyata.Currency.{Currency, IsCurrency}
use sunyata.Types.{Hash256, ElementId, Output}
use sunyata.Encoding.{
  little_endian, write_uint64, write_prefix, encode_all, encode_currency, encode_element_id,
  encode_output,
}
use sunyata.Encoding.Decoder.{
  Decodes, decoded, ◌>>=◌, read, from_little_endian, read_uint64, read_prefix, read_all,
  decode_hash, decode_currency, decode_element_id, decode_output,
}

-- The decoder reads `bytes` as `x`, and nothing behind them.
pub record Reads {ℓ} {A : Type ℓ} (d : Decodes A) (bytes : List ℕ) (x : A) : Type ℓ where
  pub run : (rest : List ℕ) → d (bytes ++ rest) ≡ some (x, rest)

-- A field, and the fields behind it.
pub Reads-then {ℓ κ} :
    {A : Type ℓ} {B : Type κ} {d : Decodes A} (f : A → Decodes B) {b t : List ℕ} {x : A} {y : B}
    → Reads d b x
    → Reads (f x) t y
    → Reads (d >>= f) (b ++ t) y
Reads-then f {b = b} {t = t} first others = record {
  run = λ rest. rw (append_assoc b t rest) (rw (first.run (t ++ rest), ◌>>=◌) (others.run rest));
}

-- The last field.
pub Reads-last {ℓ κ} :
    {A : Type ℓ} {B : Type κ} {d : Decodes A} (g : A → B) {b : List ℕ} {x : A}
    → Reads d b x
    → Reads (d >>= λ a. decoded (g a)) b (g x)
Reads-last g last = record { run = λ rest. rw (last.run rest, ◌>>=◌) refl }

take-append : (xs ys : List ℕ) → take (length xs) (xs ++ ys) ≡ xs
take-append [] ys = refl
take-append (x ∷ xs) ys = ap (λ zs. x ∷ zs) (take-append xs ys)

drop-append_length : (xs ys : List ℕ) → drop (length xs) (xs ++ ys) ≡ ys
drop-append_length [] ys = refl
drop-append_length (x ∷ xs) ys = drop-append_length xs ys

pub read-Reads : (n : ℕ) (bytes : List ℕ) → length bytes ≡ n → Reads (read n) bytes bytes
unfolding read
read-Reads n bytes len = record { run = run }
  where
    run : (rest : List ℕ) → read n (bytes ++ rest) ≡ some (bytes, rest)
    run rest =
        let enough : ltb (length (bytes ++ rest)) (length bytes) ≡ false =
          ground (arith, length-append bytes rest) in
        rw (← len) (rw (enough, take-append bytes rest, drop-append_length bytes rest) refl)

pub length-little_endian : (n u : ℕ) → length (little_endian n u) ≡ n
unfolding little_endian
length-little_endian zero u = refl
length-little_endian (suc n) u = ap suc (length-little_endian n (u / 256))

from_little_endian-little_endian : (u : ℕ) → u < 2 ^ 64 → from_little_endian (little_endian 8 u) ≡ u
unfolding from_little_endian little_endian
from_little_endian-little_endian u fits = omega arith

pub uint64-Reads : (u : ℕ) → u < 2 ^ 64 → Reads read_uint64 (write_uint64 u) u
unfolding read_uint64 write_uint64
uint64-Reads u fits =
    subst (Reads read_uint64 (write_uint64 u)) (from_little_endian-little_endian u fits)
      (Reads-last _ (read-Reads 8 (little_endian 8 u) (length-little_endian 8 u)))

pub currency-Reads : (c : Currency) → IsCurrency c → Reads decode_currency (encode_currency c) c
unfolding decode_currency encode_currency
currency-Reads c fits =
    Reads-then _ (uint64-Reads c.lo fits.lo_fits) (Reads-last _ (uint64-Reads c.hi fits.hi_fits))

-- Hashes have 32 bytes.
abbrev pub IsHash : Hash256 → Type 0
IsHash h = length h ≡ 32

pub hash-Reads : (h : Hash256) → IsHash h → Reads decode_hash h h
unfolding decode_hash
hash-Reads h len = read-Reads 32 h len

pub record IsElementId (id : ElementId) : Type 0 where
  pub source_lem : IsHash id.source
  pub index_fits : id.index < 2 ^ 64

pub element_id-Reads :
    (id : ElementId) → IsElementId id → Reads decode_element_id (encode_element_id id) id
unfolding decode_element_id encode_element_id
element_id-Reads id ok =
    Reads-then _ (hash-Reads id.source ok.source_lem)
      (Reads-last _ (uint64-Reads id.index ok.index_fits))

pub record IsOutput (out : Output) : Type 0 where
  pub value_lem : IsCurrency out.value
  pub address_lem : IsHash out.address

pub output-Reads : (out : Output) → IsOutput out → Reads decode_output (encode_output out) out
unfolding decode_output encode_output
output-Reads out ok =
    Reads-then _ (currency-Reads out.value ok.value_lem)
      (Reads-last _ (hash-Reads out.address ok.address_lem))

-- A prefix is read where at least so many bytes follow.
pub prefix-then {ℓ} :
    {B : Type ℓ} (f : ℕ → Decodes B) (n : ℕ) (t : List ℕ) {y : B}
    → n < 2 ^ 64
    → n ≤ length t
    → Reads (f n) t y
    → Reads (read_prefix >>= f) (write_prefix n ++ t) y
unfolding read_prefix write_prefix
prefix-then f n t {y = y} fits enough others = record { run = run }
  where
    run : (rest : List ℕ) → (read_prefix >>= f) ((write_uint64 n ++ t) ++ rest) ≡ some (y, rest)
    run rest =
        let long : ltb (length (t ++ rest)) n ≡ false =
          ground (arith, length-append t rest, enough) in
        rw (append_assoc (write_uint64 n) t rest)
          (rw ((uint64-Reads n fits).run (t ++ rest), ◌>>=◌) (rw long (others.run rest)))

pub read_all-Reads {ℓ} :
    {A : Type ℓ} (enc : A → List ℕ) (d : Decodes A) (xs : List A)
    → All (λ x. Reads d (enc x) x) xs
    → Reads (read_all d (length xs)) (encode_all enc xs) xs
unfolding read_all encode_all
read_all-Reads enc d [] each = record { run = λ rest. refl }
read_all-Reads enc d (x ∷ xs) each =
    Reads-then _ each.0 (Reads-last _ (read_all-Reads enc d xs each.1))

-- Items of at least one byte are as many bytes as items.
pub encode_all-long {ℓ} :
    {A : Type ℓ} (enc : A → List ℕ) (xs : List A)
    → All (λ x. 1 ≤ length (enc x)) xs
    → length xs ≤ length (encode_all enc xs)
unfolding encode_all
encode_all-long enc [] each = omega arith
encode_all-long enc (x ∷ xs) each =
    omega (arith, length-append (enc x) (encode_all enc xs), each.0, encode_all-long enc xs each.1)
