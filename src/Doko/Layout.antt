-- ===== src/Doko/Layout.antt =====
-- The places of a deal of Doppelkopf (apps/duell-web/src/doko.js: layout).
use cads_agent_marketplace.Common.{[], ◌≡◌}
use cads_agent_marketplace.Skat.Layout.{Layout, all_of, hands_from, hands_from-positions, positions}

unfoldable pub layout : Layout
layout = record { hands = hands_from 12 0 4; skat = [] }

-- The four hands take the 48 positions of the deck in order.
whole_deck : all_of layout.hands ≡ positions 0 48
unfolding layout
whole_deck = hands_from-positions 12 0 4
