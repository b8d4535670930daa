-- ===== src/Turns/Words.antt =====
-- Numbers from a seed (apps/duell-web/src/core.js: hash32, mulberry32), and the operators of
-- JavaScript on w-bit words that they use.
use native.Mathlib.Nat.{pow-suc}
use cads_agent_marketplace.Common.{
  List, [], arith, refl, suc, zero, ℕ, ◌%◌, ◌*◌, ◌+◌, ◌-◌, ◌/◌, ◌<◌, ◌^◌, ◌∷◌, ◌≡◌,
}

-- `a ^ b` for words of `w` bits.
pub xor : ℕ → ℕ → ℕ → ℕ
xor zero a b = 0
xor (suc w) a b = 2 * xor w (a / 2) (b / 2) + (a % 2 + b % 2) % 2

-- `a | b`
pub or_bits : ℕ → ℕ → ℕ → ℕ
or_bits zero a b = 0
or_bits (suc w) a b = 2 * or_bits w (a / 2) (b / 2) + (a % 2 + b % 2 - (a % 2) * (b % 2))

abbrev pub word : ℕ
word = 4294967296

-- `Math.imul(a, b) >>> 0`
abbrev pub imul : ℕ → ℕ → ℕ
imul a b = (a * b) % word

-- `hash32` of the character codes, after those that gave `h`.
unfoldable pub hash_from : ℕ → List ℕ → ℕ
unfolding xor
hash_from h [] = h
hash_from h (c ∷ cs) = hash_from (imul (xor 32 h c) 0x01000193) cs

unfoldable pub hash32 : List ℕ → ℕ
unfolding hash_from
hash32 cs = hash_from 0x811c9dc5 cs

-- The state of `mulberry32` after a call, and what the call makes of it, in 2 ^ 32nds.
abbrev pub mulberry_next : ℕ → ℕ
mulberry_next a = (a + 0x6D2B79F5) % word

unfoldable pub mulberry_word : ℕ → ℕ
unfolding xor or_bits
mulberry_word a =
    let t = imul (xor 32 a (a / 2 ^ 15)) (or_bits 32 a 1) in
    let u = xor 32 t ((t + imul (xor 32 t (t / 2 ^ 7)) (or_bits 32 t 61)) % word) in
    xor 32 u (u / 2 ^ 14)

-- `Math.floor(r() * k)` for the first `n` calls of a generator in the state `a`.
unfoldable pub draws : ℕ → ℕ → ℕ → List ℕ
unfolding mulberry_word
draws k zero a = []
draws k (suc n) a = (mulberry_word (mulberry_next a) * k) / word ∷ draws k n (mulberry_next a)

pub xor-lt : (w a b : ℕ) → xor w a b < 2 ^ w
unfolding xor
xor-lt zero a b = omega arith
xor-lt (suc w) a b = omega (arith, xor-lt w (a / 2) (b / 2), pow-suc 2 w)

-- To flip the same bits twice changes nothing.
pub xor-xor : (w a b : ℕ) → a < 2 ^ w → xor w (xor w a b) b ≡ a
unfolding xor
xor-xor zero a b h = omega arith
xor-xor (suc w) a b h =
    let r = xor w (a / 2) (b / 2) in
    let half : (2 * r + (a % 2 + b % 2) % 2) / 2 ≡ r = omega arith in
    let ih : xor w r (b / 2) ≡ a / 2 = xor-xor w (a / 2) (b / 2) (omega (arith, pow-suc 2 w)) in
    rw (half, ih) (omega arith)

hash_of_a : hash32 (b'a' ∷ []) ≡ 0xe40c292c
unfolding hash32
hash_of_a = refl

first_draws : draws 256 3 1 ≡ 160 ∷ 0 ∷ 135 ∷ []
unfolding draws
first_draws = refl
