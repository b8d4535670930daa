-- ===== src/Skat/Invariant/Laying.antt =====
-- Skat: a card laid on the table, which may complete the trick and the game.
use mathlib.Core.List.{append-nil, append_assoc}
use cads_agent_marketplace.Common.{
  All, All-append, List, [], ap, arith, contains, distinct, distinct-snoc, false, length,
  length-append, nat_eq, none, refl, some, sym, true, ℕ, ◌%◌, ◌++◌, ◌+◌, ◌<◌, ◌∙◌, ◌∷◌, ◌≡◌, ◌≢◌,
  ◌⊎◌,
}
use cads_agent_marketplace.Skat.Apply.{played, table_cards}
use cads_agent_marketplace.Skat.Cards.{card_eq, is_null, rank_eq, suit_eq}
use cads_agent_marketplace.Skat.State.{Contract, State, Taken, Trick, forehand, over, rule_eq}
use cads_agent_marketplace.Skat.Strength.{Play, led_eq, trick_winner}
use cads_agent_marketplace.Skat.Valid.{IsFinished, IsTable}
use cads_agent_marketplace.Skat.Valid.Parts.{
  Chain, Chain-snoc, InOrder, InOrder-snoc, IsTaken, play_cards-append, taken_cards-snoc,
}

played-lay :
    (s t : State) (x : Play)
    → t.tricks ≡ s.tricks
    → table_cards t.trick ≡ table_cards s.trick ++ x ∷ []
    → played t ≡ played s ++ x.card ∷ []
unfolding played
played-lay s t x e f = simp (e, f, play_cards-append (table_cards s.trick) (x ∷ []), append_assoc)

played-close :
    (s t : State) (u : Taken) (x : Play)
    → t.tricks ≡ s.tricks ++ u ∷ []
    → table_cards t.trick ≡ []
    → u.cards ≡ table_cards s.trick ++ x ∷ []
    → played t ≡ played s ++ x.card ∷ []
unfolding played
played-close s t u x e f k =
    rw (e, f)
      (simp (
        taken_cards-snoc s.tricks u,
        k,
        play_cards-append (table_cards s.trick) (x ∷ []),
        append-nil,
        append_assoc,
      ))

module _ (s : State) (c : Contract) (t : Trick) (h : IsTable s c t) (b : s.dealer < 3) (x : Play)
    (turn_eq : x.seat ≡ (t.lead + length t.cards) % 3)
    (new : contains (played s) x.card ≡ false) where
  abbrev pub laid : List Play
  laid = t.cards ++ x ∷ []

  pub laid-order : InOrder t.lead laid
  laid-order = InOrder-snoc t.lead t.cards x h.lead_seat h.order turn_eq

  new-distinct : distinct (played s ++ x.card ∷ []) ≡ true
  new-distinct = distinct-snoc (played s) x.card h.fresh new

  laid-table : laid ≡ table_cards s.trick ++ x ∷ []
  laid-table = ap (λ o. table_cards o ++ x ∷ []) (sym h.trick_eq)

  -- The trick is not full yet: the next seat is asked.
  pub lay-IsTable :
      length laid < 3
      → IsTable
          (record s { trick = some (record t { cards = laid }); next = some ((x.seat + 1) % 3) })
          c
          (record t { cards = laid })
  lay-IsTable few = record {
    contract_eq = h.contract_eq;
    trick_eq = refl;
    next_eq = ap some (omega (arith, length-append t.cards (x ∷ [])));
    few = few;
    lead_seat = h.lead_seat;
    order = laid-order;
    taken = h.taken;
    chain = h.chain;
    unfinished = h.unfinished;
    fresh = ap distinct (played-lay s _ x refl laid-table) ∙ new-distinct;
  }

  module _ (w : ℕ) (full : length laid ≡ 3) (won : trick_winner c.game laid ≡ some w)
      (in_range : w < 3) where
    abbrev pub taken_now : Taken
    taken_now = record { lead = t.lead; cards = laid; winner = w }

    abbrev pub all_tricks : List Taken
    all_tricks = s.tricks ++ taken_now ∷ []

    taken_now-IsTaken : IsTaken c.game taken_now
    taken_now-IsTaken = record {
      full = full;
      lead_seat = h.lead_seat;
      order = laid-order;
      won = won;
      winner_seat = in_range;
    }

    All-IsTaken : All (IsTaken c.game) all_tricks
    All-IsTaken = All-append _ s.tricks (taken_now ∷ []) h.taken (taken_now-IsTaken, tt)

    all-Chain : Chain (forehand s.dealer) all_tricks w
    all-Chain = Chain-snoc (forehand s.dealer) s.tricks taken_now h.chain refl

    -- The game goes on with an empty table.
    pub next-IsTable :
        length all_tricks ≢ 10
        → IsTable
            (record s {
              tricks = all_tricks;
              trick = some (record { lead = w; cards = [] });
              next = some w;
            })
            c
            (record { lead = w; cards = [] })
    next-IsTable more = record {
      contract_eq = h.contract_eq;
      trick_eq = refl;
      next_eq = ap some (omega arith);
      few = omega arith;
      lead_seat = in_range;
      order = tt;
      taken = All-IsTaken;
      chain = all-Chain;
      unfinished = omega (arith, length-append s.tricks (taken_now ∷ []), h.unfinished);
      fresh = ap distinct (played-close s _ taken_now x refl refl laid-table) ∙ new-distinct;
    }

    -- The game ends.
    pub end-IsFinished :
        (length all_tricks ≡ 10) ⊎ (is_null c.game ≡ true)
        → IsFinished (record s { tricks = all_tricks; phase = over; trick = none; next = none }) c
    end-IsFinished why = record {
      contract_eq = h.contract_eq;
      trick_eq = refl;
      taken = All-IsTaken;
      last_lead = w;
      chain = all-Chain;
      complete = why;
      at_most = omega (arith, length-append s.tricks (taken_now ∷ []), h.unfinished);
      fresh = ap distinct (played-close s _ taken_now x refl refl laid-table) ∙ new-distinct;
    }
