-- ===== src/Turns/Blocks.antt =====
-- The block game (apps/duell-web/src/turns.js: SIZE, BLOCKS, blockAt, fits, drop, replay, canMove).
use cads_agent_marketplace.Common.{
  Bool, List, Option, [], all, false, filter, get_elem?, if◌then◌else◌, length, ltb, map, none, not,
  set, some, suc, true, zero, ℕ, ◌%◌, ◌&&◌, ◌*◌, ◌++◌, ◌+◌, ◌/◌, ◌||◌, ◌∷◌,
}
use cads_agent_marketplace.Turns.Seal.{digits_from}
use cads_agent_marketplace.Turns.Words.{draws, hash32}

abbrev pub size : ℕ
size = 8

-- A cell of a block: how far to the right and how far down.
abbrev pub Cell : Type 0
Cell = ℕ × ℕ

abbrev pub blocks : List (List Cell)
blocks =
    ((0, 0) ∷ [])
    ∷ ((0, 0) ∷ (1, 0) ∷ [])
    ∷ ((0, 0) ∷ (0, 1) ∷ [])
    ∷ ((0, 0) ∷ (1, 0) ∷ (2, 0) ∷ [])
    ∷ ((0, 0) ∷ (0, 1) ∷ (0, 2) ∷ [])
    ∷ ((0, 0) ∷ (1, 0) ∷ (0, 1) ∷ (1, 1) ∷ [])
    ∷ ((0, 0) ∷ (1, 0) ∷ (0, 1) ∷ [])
    ∷ ((0, 0) ∷ (0, 1) ∷ (1, 1) ∷ [])
    ∷ ((0, 0) ∷ (1, 0) ∷ (2, 0) ∷ (3, 0) ∷ [])
    ∷ ((0, 0) ∷ (0, 1) ∷ (0, 2) ∷ (0, 3) ∷ [])
    ∷ ((0, 0) ∷ (1, 0) ∷ (2, 0) ∷ (1, 1) ∷ [])
    ∷ []

abbrev pub seed_key : ℕ → List ℕ
seed_key seed = b's' ∷ b't' ∷ b'e' ∷ b'i' ∷ b'n' ∷ b'e' ∷ b'|' ∷ digits_from 10 seed []

abbrev pub last_or : ℕ → List ℕ → ℕ
last_or d [] = d
last_or d (x ∷ xs) = last_or x xs

abbrev pub block_or : Option (List Cell) → List Cell
block_or none = []
block_or (some b) = b

-- `blockAt`: the block number `i` of a seed.
unfoldable pub block_at : ℕ → ℕ → List Cell
unfolding draws hash32
block_at seed i =
    block_or (get_elem? blocks (last_or 0 (draws (length blocks) (i + 1) (hash32 (seed_key seed)))))

pub record Board : Type 0 where
  pub grid : List Bool
  pub score : ℕ
  pub lines : ℕ
  pub i : ℕ

-- A cell beyond the grid is taken as empty, as in JavaScript.
abbrev pub is_taken : Option Bool → Bool
is_taken none = false
is_taken (some b) = b

abbrev pub free_at : List Bool → ℕ → ℕ → Bool
free_at grid cx cy =
    ltb cx size && (ltb cy size && not (is_taken (get_elem? grid (cy * size + cx))))

unfoldable pub fits : List Bool → List Cell → ℕ → Bool
fits grid block at = all (λ (c : Cell). free_at grid (at % size + c.0) (at / size + c.1)) block

abbrev pub put_block : ℕ → ℕ → List Cell → List Bool → List Bool
put_block x y [] g = g
put_block x y (c ∷ cs) g = put_block x y cs (set g ((y + c.1) * size + x + c.0) true)

abbrev pub eight : List ℕ
eight = 0 ∷ 1 ∷ 2 ∷ 3 ∷ 4 ∷ 5 ∷ 6 ∷ 7 ∷ []

abbrev pub full_row : List Bool → ℕ → Bool
full_row g i = all (λ j. is_taken (get_elem? g (i * size + j))) eight

abbrev pub full_col : List Bool → ℕ → Bool
full_col g i = all (λ j. is_taken (get_elem? g (j * size + i))) eight

abbrev pub clear_all : List ℕ → List Bool → List Bool
clear_all [] g = g
clear_all (k ∷ ks) g = clear_all ks (set g k false)

abbrev pub clear_rows : List ℕ → List Bool → List Bool
clear_rows [] g = g
clear_rows (r ∷ rs) g = clear_rows rs (clear_all (map (λ j. r * size + j) eight) g)

abbrev pub clear_cols : List ℕ → List Bool → List Bool
clear_cols [] g = g
clear_cols (c ∷ cs) g = clear_cols cs (clear_all (map (λ j. j * size + c) eight) g)

unfoldable pub drop : Board → List Cell → ℕ → Board
drop st block at =
    let g = put_block (at % size) (at / size) block st.grid in
    let rows = filter (full_row g) eight in
    let cols = filter (full_col g) eight in
    let n = length rows + length cols in
    record {
      grid = clear_cols cols (clear_rows rows g);
      score = st.score + length block + n * n * 10;
      lines = n;
      i = st.i + 1;
    }

abbrev pub empty_row : List Bool
empty_row = map (λ j. false) eight

abbrev pub empty_board : Board
empty_board = record {
  grid =
      empty_row
      ++ (empty_row
          ++ (empty_row ++ (empty_row ++ (empty_row ++ (empty_row ++ (empty_row ++ empty_row))))));
  score = 0;
  lines = 0;
  i = 0;
}

-- `replay`, from a board.
unfoldable pub replay_from : ℕ → List ℕ → Board → Option Board
unfolding fits drop block_at
replay_from seed [] st = some st
replay_from seed (at ∷ ats) st =
    let rest = replay_from seed ats (drop st (block_at seed st.i) at) in
    if fits st.grid (block_at seed st.i) at then rest else none

unfoldable pub replay : ℕ → List ℕ → Option Board
unfolding replay_from
replay seed cells = replay_from seed cells empty_board

abbrev pub can_from : List Bool → List Cell → ℕ → ℕ → Bool
can_from grid block zero at = false
can_from grid block (suc n) at = fits grid block at || can_from grid block n (at + 1)

unfoldable pub can_move : Board → ℕ → Bool
unfolding fits block_at
can_move st seed = can_from st.grid (block_at seed st.i) (size * size) 0
