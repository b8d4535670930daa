-- ===== src/Turns/Base64.antt =====
-- Base64 as the platform's btoa and atob give it (RFC 4648), in the form that fits into a link
-- (apps/duell-web/src/turns.js: seal, unseal).
pub mod RoundTrip
use cads_agent_marketplace.Common.{
  Bool, List, Option, [], false, if◌then◌else◌, leb, length, list_eq, ltb, map, nat_eq, none, some,
  take, true, ℕ, ◌%◌, ◌&&◌, ◌*◌, ◌++◌, ◌+◌, ◌-◌, ◌/◌, ◌==◌, ◌||◌, ◌∷◌,
}

abbrev pub std_char : ℕ → ℕ
std_char v =
    if ltb v 26
    then v + 65
    else if ltb v 52
    then v + 71
    else if ltb v 62
    then v - 4
    else if v == 62
    then b'+'
    else b'/'

abbrev pub sextet : ℕ → Option ℕ
sextet c =
    if leb b'A' c && leb c b'Z'
    then some (c - 65)
    else if leb b'a' c && leb c b'z'
    then some (c - 71)
    else if leb b'0' c && leb c b'9'
    then some (c + 4)
    else if c == b'+'
    then some 62
    else if c == b'/'
    then some 63
    else none

-- `btoa` of bytes.
unfoldable pub btoa : List ℕ → List ℕ
btoa [] = []
btoa (a ∷ []) = std_char (a / 4) ∷ std_char ((a % 4) * 16) ∷ b'=' ∷ b'=' ∷ []
btoa (a ∷ b ∷ []) =
    std_char (a / 4) ∷ std_char ((a % 4) * 16 + b / 16) ∷ std_char ((b % 16) * 4) ∷ b'=' ∷ []
btoa (a ∷ b ∷ c ∷ r) =
    std_char (a / 4)
    ∷ std_char ((a % 4) * 16 + b / 16)
    ∷ std_char ((b % 16) * 4 + c / 64)
    ∷ std_char (c % 64)
    ∷ btoa r

-- The bytes of a group of four characters, when all four are known.
abbrev pub three_bytes : ℕ → ℕ → ℕ → ℕ → List ℕ
three_bytes w x y z = (w * 4 + x / 16) ∷ ((x % 16) * 16 + y / 4) ∷ ((y % 4) * 64 + z) ∷ []

infixl 15 ◌>>=◌
abbrev pub ◌>>=◌ : {A B : Type 0} → Option A → (A → Option B) → Option B
none >>= f = none
(some a) >>= f = f a

abbrev pub keep : ℕ → Option (List ℕ) → Option (List ℕ)
keep n none = none
keep n (some bs) = some (take n bs)

abbrev pub group : ℕ → ℕ → ℕ → ℕ → Option (List ℕ)
group w x y z = do
  w' ← sextet w
  x' ← sextet x
  y' ← sextet y
  z' ← sextet z
  some (three_bytes w' x' y' z')

-- The last group may end in one or two `=`.
abbrev pub last_group : ℕ → ℕ → ℕ → ℕ → Option (List ℕ)
last_group w x y z =
    if z == b'='
    then (if y == b'=' then keep 1 (group w x b'A' b'A') else keep 2 (group w x y b'A'))
    else group w x y z

-- `atob`; `none` stands for the exception.
unfoldable pub atob : List ℕ → Option (List ℕ)
atob [] = some []
atob (w ∷ x ∷ y ∷ z ∷ []) = last_group w x y z
atob (w ∷ x ∷ y ∷ z ∷ r) = do bs ← group w x y z; cs ← atob r; some (bs ++ cs)
atob _ = none

-- `.replace(/\+/g, "-").replace(/\//g, "_")` for one character, and back.
abbrev pub to_url : ℕ → ℕ
to_url c = if c == b'+' then b'-' else if c == b'/' then b'_' else c

abbrev pub of_url : ℕ → ℕ
of_url c = if c == b'-' then b'+' else if c == b'_' then b'/' else c

-- `.replace(/=+$/, "")`
abbrev pub put_unless : Bool → ℕ → List ℕ → List ℕ
put_unless true c [] = []
put_unless true c (x ∷ xs) = c ∷ x ∷ xs
put_unless false c xs = c ∷ xs

abbrev pub strip : List ℕ → List ℕ
strip [] = []
strip (c ∷ cs) = put_unless (c == b'=') c (strip cs)

-- `+ "===".slice(0, (4 - n % 4) % 4)`
abbrev pub fill_up : List ℕ → List ℕ
fill_up cs = cs ++ take ((4 - length cs % 4) % 4) (b'=' ∷ b'=' ∷ b'=' ∷ [])

abbrev pub to_link : List ℕ → List ℕ
to_link bs = strip (map to_url (btoa bs))

abbrev pub of_link : List ℕ → Option (List ℕ)
of_link cs = atob (fill_up (map of_url cs))

-- A character of `BLOB`.
abbrev pub is_link_char : ℕ → Bool
is_link_char c =
    (leb b'A' c && leb c b'Z')
    || ((leb b'a' c && leb c b'z') || ((leb b'0' c && leb c b'9') || (c == b'_' || c == b'-')))
