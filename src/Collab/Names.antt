-- ===== src/Collab/Names.antt =====
-- Editing together: the names of stickers and their order (apps/duell-web/src/collab.js: birth, byBirth,
-- visible, and the names that seed and local give). MAX_STICKERS stands in daily.js.
use cads_agent_marketplace.Common.{
  Bool, List, [], false, if◌then◌else◌, list_eq, ltb, map, nat_eq, suc, take, true, zero, ℕ, ◌%◌,
  ◌&&◌, ◌*◌, ◌++◌, ◌+◌, ◌-◌, ◌/◌, ◌==◌, ◌||◌, ◌∷◌,
}
use cads_agent_marketplace.Collab.Merge.{Store, Text}

abbrev pub max_stickers : ℕ
max_stickers = 8

-- `String(n)`, for a clock of at most thirteen digits, in front of `acc`.
abbrev pub decimal : ℕ → ℕ → Text → Text
decimal zero n acc = acc
decimal (suc f) n acc =
    let rest = decimal f (n / 10) ((n % 10 + b'0') ∷ acc) in
    if ltb n 10 then (n + b'0') ∷ acc else rest

-- `tick() + "." + actor`, once the clock has ticked.
abbrev pub new_name : ℕ → Text → Text
new_name clock actor = decimal 13 clock (b'.' ∷ actor)

-- `birth`: the number in front of the dot.
abbrev pub birth_from : ℕ → Text → ℕ
birth_from n [] = n
birth_from n (c ∷ cs) =
    let rest = birth_from (n * 10 + (c - b'0')) cs in if c == b'.' then n else rest

abbrev pub birth : Text → ℕ
birth id = birth_from 0 id

-- `a < b` for texts.
abbrev pub text_less : Text → Text → Bool
text_less [] [] = false
text_less [] (d ∷ ds) = true
text_less (c ∷ cs) [] = false
text_less (c ∷ cs) (d ∷ ds) = let rest = text_less cs ds in ltb c d || (c == d && rest)

-- `byBirth(a, b) < 0`
abbrev pub is_older : Text → Text → Bool
is_older a b = ltb (birth a) (birth b) || (birth a == birth b && text_less a b)

abbrev pub insert_name : Text → List Text → List Text
insert_name a [] = a ∷ []
insert_name a (b ∷ bs) =
    let rest = insert_name a bs in if is_older b a then b ∷ rest else a ∷ b ∷ bs

abbrev pub sort_names : List Text → List Text
sort_names [] = []
sort_names (a ∷ as_) = insert_name a (sort_names as_)

-- `visible`
unfoldable pub visible : {V G : Type 0} → Store V G → List Text
visible s = take max_stickers (sort_names (map (λ p. p.0) s.stickers))

-- `.join()`, with nothing for an object that has no name.
abbrev pub join_names : List Text → Text
join_names [] = []
join_names (a ∷ []) = a
join_names (a ∷ b ∷ bs) = a ++ (b',' ∷ join_names (b ∷ bs))
