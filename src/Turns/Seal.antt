-- ===== src/Turns/Seal.antt =====
-- The moves of a game in a link (apps/duell-web/src/turns.js: BLOB, stream, seal, unseal).
pub mod RoundTrip
use cads_agent_marketplace.Common.{
  Bool, List, Option, [], all, false, if◌then◌else◌, leb, length, ltb, none, not, some, suc, true,
  zero, ℕ, ◌%◌, ◌&&◌, ◌+◌, ◌/◌, ◌∷◌,
}
use cads_agent_marketplace.Turns.Base64.{is_link_char, of_link, to_link}
use cads_agent_marketplace.Turns.Value.{Value, array, elements, of_items}
use cads_agent_marketplace.Turns.Words.{draws, hash32, xor}

-- `String(n)` of a seed, in front of `acc`; a seed has at most ten digits.
abbrev pub digits_from : ℕ → ℕ → List ℕ → List ℕ
digits_from zero n acc = acc
digits_from (suc f) n acc =
    let rest = digits_from f (n / 10) ((n % 10 + b'0') ∷ acc) in
    if ltb n 10 then (n + b'0') ∷ acc else rest

abbrev pub seal_key : ℕ → List ℕ
seal_key seed = b's' ∷ b'e' ∷ b'a' ∷ b'l' ∷ b'|' ∷ digits_from 10 seed []

-- `stream`: the first `n` bytes that belong to a seed.
unfoldable pub stream : ℕ → ℕ → List ℕ
unfolding draws hash32
stream seed n = draws 256 n (hash32 (seal_key seed))

-- Each byte with the byte of the stream at its place.
abbrev pub mask : List ℕ → List ℕ → List ℕ
mask [] ks = []
mask (b ∷ bs) [] = []
mask (b ∷ bs) (k ∷ ks) = xor 8 b k ∷ mask bs ks

abbrev pub is_nil : List ℕ → Bool
is_nil [] = true
is_nil (c ∷ cs) = false

-- `BLOB`, for a text that is not empty.
abbrev pub is_blob : List ℕ → Bool
is_blob cs = not (is_nil cs) && (all is_link_char cs && leb (length cs) 900)

-- `Array.isArray(m) ? m : []`
abbrev pub or_empty : Option (List Value) → List Value
or_empty none = []
or_empty (some vs) = vs

-- `print` is the text that JSON.stringify makes, in bytes.
unfoldable pub seal : (Value → List ℕ) → List Value → ℕ → List ℕ
unfolding stream
seal print moves seed =
    let b = print (array (of_items moves)) in to_link (mask b (stream seed (length b)))

abbrev pub array_of : Option Value → List Value
array_of none = []
array_of (some v) = or_empty (elements v)

-- `parse` is JSON.parse of bytes that are a text, and `none` where one of the two throws.
module _ (parse : List ℕ → Option Value) where
  abbrev pub opened : ℕ → Option (List ℕ) → List Value
  opened seed none = []
  opened seed (some bin) = array_of (parse (mask bin (stream seed (length bin))))

  unfoldable pub unseal : List ℕ → ℕ → List Value
  unfolding stream
  unseal blob seed = if is_blob blob then opened seed (of_link blob) else []
