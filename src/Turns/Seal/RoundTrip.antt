-- ===== src/Turns/Seal/RoundTrip.antt =====
-- The moves of a game in a link, and what is read back (apps/duell-web/src/turns.js: seal, unseal).
use cads_agent_marketplace.Common.{
  &&-both, All, List, Option, [], all, ap, arith, length, not, refl, some, suc, sym, true, zero, ℕ,
  ◌<◌, ◌∙◌, ◌∷◌, ◌≡◌, ◌≢◌, ◌≤◌,
}
use cads_agent_marketplace.Turns.Base64.{atob, is_link_char, of_link, to_link}
use cads_agent_marketplace.Turns.Base64.RoundTrip.{of_link-to_link, to_link-chars}
use cads_agent_marketplace.Turns.Seal.{is_blob, is_nil, mask, seal, seal_key, stream, unseal}
use cads_agent_marketplace.Turns.Value.{Value, array, items-of_items, of_items}
use cads_agent_marketplace.Turns.Words.{draws, hash32, mulberry_next, xor-lt, xor-xor}

mask-mask :
    (bs ks : List ℕ) → All (λ b. b < 256) bs → length ks ≡ length bs → mask (mask bs ks) ks ≡ bs
mask-mask [] ks h e = refl
mask-mask (b ∷ bs) [] h e = absurd (omega (arith, e))
mask-mask (b ∷ bs) (k ∷ ks) h e =
    λ i. xor-xor 8 b k h.0 i ∷ mask-mask bs ks h.1 (omega (arith, e)) i

length-mask : (bs ks : List ℕ) → length ks ≡ length bs → length (mask bs ks) ≡ length bs
length-mask [] ks e = refl
length-mask (b ∷ bs) [] e = absurd (omega (arith, e))
length-mask (b ∷ bs) (k ∷ ks) e = ap suc (length-mask bs ks (omega (arith, e)))

mask-bytes : (bs ks : List ℕ) → All (λ b. b < 256) (mask bs ks)
mask-bytes [] ks = tt
mask-bytes (b ∷ bs) [] = tt
mask-bytes (b ∷ bs) (k ∷ ks) = (xor-lt 8 b k, mask-bytes bs ks)

length-draws : (k n a : ℕ) → length (draws k n a) ≡ n
unfolding draws
length-draws k zero a = refl
length-draws k (suc n) a = ap suc (length-draws k n (mulberry_next a))

length-stream : (seed n : ℕ) → length (stream seed n) ≡ n
unfolding stream
length-stream seed n = length-draws 256 n (hash32 (seal_key seed))

all-AllLink : (cs : List ℕ) → All (λ c. is_link_char c ≡ true) cs → all is_link_char cs ≡ true
all-AllLink [] h = refl
all-AllLink (c ∷ cs) h = &&-both _ _ h.0 (all-AllLink cs h.1)

not_nil : (cs : List ℕ) → cs ≢ [] → not (is_nil cs) ≡ true
not_nil [] h = absurd (h refl)
not_nil (c ∷ cs) h = refl

length-of_nonempty : (cs : List ℕ) → cs ≢ [] → 0 < length cs
length-of_nonempty [] h = absurd (h refl)
length-of_nonempty (c ∷ cs) h = omega arith

unwrap : (bs : List ℕ) → ◌≡◌ {A = Option (List ℕ)} (some bs) (some []) → bs ≡ []
unwrap bs h = cc

-- Bytes that are there make a link that is taken, if it is not too long.
is_blob-link :
    (bin : List ℕ) {bs : List ℕ}
    → length bin ≡ length bs
    → bs ≢ []
    → All (λ b. b < 256) bin
    → length (to_link bin) ≤ 900
    → is_blob (to_link bin) ≡ true
unfolding atob
is_blob-link bin {bs} e some_bytes small short =
    &&-both _ _
      (not_nil (to_link bin) (λ z.
        let z' : ◌≡◌ {A = Option (List ℕ)} (some bin) (some []) =
          sym (of_link-to_link bin small) ∙ ap of_link z ∙ refl in
        absurd (omega (arith, e, length-of_nonempty bs some_bytes, ap length (unwrap bin z')))))
      (&&-both _ _ (all-AllLink (to_link bin) (to_link-chars bin small)) (ground arith))

module _ (print : Value → List ℕ) (parse : List ℕ → Option Value) where
  -- What JSON and its bytes promise of one value: it is read back, its bytes are bytes, and the
  -- text is not empty.
  pub record IsJson (v : Value) : Type 0 where
    pub read : parse (print v) ≡ some v
    pub bytes : All (λ b. b < 256) (print v)
    pub written : print v ≢ []

  -- Moves that fit into a link are read back from it.
  pub unseal-seal :
      (moves : List Value) (seed : ℕ)
      → IsJson (array (of_items moves))
      → length (seal print moves seed) ≤ 900
      → unseal parse (seal print moves seed) seed ≡ moves
  unfolding seal unseal
  unseal-seal moves seed json short =
      let v = array (of_items moves) in
      let ks = stream seed (length (print v)) in
      let bin = mask (print v) ks in
      let same : length ks ≡ length (print v) = length-stream seed (length (print v)) in
      let small : All (λ b. b < 256) bin = mask-bytes (print v) ks in
      let back : of_link (to_link bin) ≡ some bin = of_link-to_link bin small in
      let whole : is_blob (to_link bin) ≡ true =
        is_blob-link bin (length-mask (print v) ks same) json.written small short in
      let sized : length bin ≡ length (print v) = length-mask (print v) ks same in
      rw (
        whole,
        back,
        sized,
        mask-mask (print v) ks json.bytes same,
        json.read,
        items-of_items moves,
      )
