-- ===== src/Doko/Winner.antt =====
-- Doppelkopf: what the two parties need to win (apps/duell-web/src/doko.js: result).
-- The eyes and tricks of a whole game.
use cads_agent_marketplace.Common.{Option, arith, false, none, some, suc, true, zero, ℕ, ◌+◌, ◌≡◌}
use cads_agent_marketplace.Doko.Parties.{Counts, met, reached, target}
use cads_agent_marketplace.Doko.State.{Levels, kontra, re}

pub record IsWhole (c : Counts) : Type 0 where
  pub eyes_sum : c.re_eyes + c.kontra_eyes ≡ 240
  pub tricks_sum : c.re_tricks + c.kontra_tricks ≡ 12
  pub re_none : c.re_tricks ≡ 0 → c.re_eyes ≡ 0
  pub kontra_none : c.kontra_tricks ≡ 0 → c.kontra_eyes ≡ 0

exclusive :
    (x y : Option ℕ) (a b t u : ℕ)
    → a + b ≡ 240
    → t + u ≡ 12
    → (t ≡ 0 → a ≡ 0)
    → (u ≡ 0 → b ≡ 0)
    → reached (target re (record { re_level = x; kontra_level = y })) t a ≡ true
    → reached (target kontra (record { re_level = x; kontra_level = y })) u b ≡ false
unfolding target
exclusive none none a b t u h k m n e = ground arith
exclusive none (some zero) a b t u h k m n e = ground arith
exclusive none (some (suc zero)) a b t u h k m n e = ground arith
exclusive none (some (suc (suc zero))) a b t u h k m n e = ground arith
exclusive none (some (suc (suc (suc zero)))) a b t u h k m n e = ground arith
exclusive none (some (suc (suc (suc (suc y))))) a b t u h k m n e = ground arith
exclusive (some zero) none a b t u h k m n e = ground arith
exclusive (some zero) (some zero) a b t u h k m n e = ground arith
exclusive (some zero) (some (suc zero)) a b t u h k m n e = ground arith
exclusive (some zero) (some (suc (suc zero))) a b t u h k m n e = ground arith
exclusive (some zero) (some (suc (suc (suc zero)))) a b t u h k m n e = ground arith
exclusive (some zero) (some (suc (suc (suc (suc y))))) a b t u h k m n e = ground arith
exclusive (some (suc zero)) none a b t u h k m n e = ground arith
exclusive (some (suc zero)) (some zero) a b t u h k m n e = ground arith
exclusive (some (suc zero)) (some (suc zero)) a b t u h k m n e = ground arith
exclusive (some (suc zero)) (some (suc (suc zero))) a b t u h k m n e = ground arith
exclusive (some (suc zero)) (some (suc (suc (suc zero)))) a b t u h k m n e = ground arith
exclusive (some (suc zero)) (some (suc (suc (suc (suc y))))) a b t u h k m n e = ground arith
exclusive (some (suc (suc zero))) none a b t u h k m n e = ground arith
exclusive (some (suc (suc zero))) (some zero) a b t u h k m n e = ground arith
exclusive (some (suc (suc zero))) (some (suc zero)) a b t u h k m n e = ground arith
exclusive (some (suc (suc zero))) (some (suc (suc zero))) a b t u h k m n e = ground arith
exclusive (some (suc (suc zero))) (some (suc (suc (suc zero)))) a b t u h k m n e = ground arith
exclusive (some (suc (suc zero))) (some (suc (suc (suc (suc y))))) a b t u h k m n e = ground arith
exclusive (some (suc (suc (suc zero)))) none a b t u h k m n e = ground arith
exclusive (some (suc (suc (suc zero)))) (some zero) a b t u h k m n e = ground arith
exclusive (some (suc (suc (suc zero)))) (some (suc zero)) a b t u h k m n e = ground arith
exclusive (some (suc (suc (suc zero)))) (some (suc (suc zero))) a b t u h k m n e = ground arith
exclusive (some (suc (suc (suc zero)))) (some (suc (suc (suc zero)))) a b t u h k m n e =
    ground arith
exclusive (some (suc (suc (suc zero)))) (some (suc (suc (suc (suc y))))) a b t u h k m n e =
    ground arith
exclusive (some (suc (suc (suc (suc x))))) none a b t u h k m n e = ground arith
exclusive (some (suc (suc (suc (suc x))))) (some zero) a b t u h k m n e = ground arith
exclusive (some (suc (suc (suc (suc x))))) (some (suc zero)) a b t u h k m n e = ground arith
exclusive (some (suc (suc (suc (suc x))))) (some (suc (suc zero))) a b t u h k m n e = ground arith
exclusive (some (suc (suc (suc (suc x))))) (some (suc (suc (suc zero)))) a b t u h k m n e =
    ground arith
exclusive (some (suc (suc (suc (suc x))))) (some (suc (suc (suc (suc y))))) a b t u h k m n e =
    ground arith

-- In a whole game, with 240 eyes and twelve tricks, and no eyes without a trick, at most one party
-- reaches what it needs to win, whatever both have called. So it does not matter which of them is
-- asked first.
pub met-exclusive :
    (l : Levels) (c : Counts) → IsWhole c → met re l c ≡ true → met kontra l c ≡ false
met-exclusive l c whole e =
    exclusive l.re_level l.kontra_level c.re_eyes c.kontra_eyes c.re_tricks c.kontra_tricks
      whole.eyes_sum whole.tricks_sum whole.re_none whole.kontra_none e
