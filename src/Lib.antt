-- ===== src/Lib.antt =====
-- Verification of the card game rules, of the shared editing and of the course of the turn games of the
-- duel web app (apps/duell-web/src), and of the calls (apps/call-core/src).
--
-- Skat is played on devices that exchange actions. Each device keeps the public state of the game and
-- applies every action to it by the same pure function (apps/duell-web/src/skat.js). No hand is part
-- of the state: cards appear when they are played or laid open. The table (table.js) calls `start`
-- once, `apply` for each action, `actions` for what a player may choose, `auto` for a player who is
-- away, and `result` at the end.
--
-- Files, with the functions of skat.js that they model:
--   Common             lists, options, Boolean tests and signed integers over the native numbers
--   Skat/Cards         SUITS, RANKS, DECK, EYES, BASE, eyes
--   Skat/Strength      trumpOrder, isTrump, suitOf, power, bestIndex, trickWinner, mayPlay, tops
--   Skat/State         the state, the actions, BIDS, rules, has, start, turn, done
--   Skat/Bidding       bidSeat, toDeclarer, applyBid
--   Skat/Contract      nullValue, checkContract, declareOptions
--   Skat/Apply         playedBy, kontraOk, kontraLate, played, play, apply
--   Skat/Score         result, for a game with a declarer
--   Skat/Ramsch        ramschResult, result
--   Skat/Moves         actions, cmp, longest, auto
--   Skat/Winner        which card takes a trick
--   Skat/Valid         well-formed states
--   Skat/Invariant     well-formedness and apply
--   Skat/Termination   the number of actions of a game
--   Skat/Scoring       what the score promises
--   Skat/Legal         actions and apply
--   Skat/Auto          auto and apply
--   Skat/Audit         audit, and what an empty audit means
--   Skat/Explain       explain
--   Skat/Layout        layout
--   Skat/Scenarios     tests, and games at which the theorems are applied
--
-- Bauernskat (bauernskat.js) is Skat for two players with face-down cards, which the table opens when
-- `reveals` lists them:
--   Bauernskat/State   rules, has, start, tops, played, playedBy, visible, turn, done, reveals
--   Bauernskat/Apply   kontraOk, games, turnUp, play, apply
--   Bauernskat/Secrecy which cards are opened
--   Bauernskat/Once    how often a card is seen
--   Bauernskat/Seen    how the actions change that
--   Bauernskat/Score   cardsOf, result
--   Bauernskat/Bids    what the score promises
--   Bauernskat/Moves   games, actions, auto
--   Bauernskat/Auto    the move for an absent player
--   Bauernskat/Audit   audit
--   Bauernskat/Layout  layout
--   Bauernskat/Scenarios  tests, and games at which the theorems are applied
-- It shares the cards and the strength of cards with Skat; its `mayPlay` is the one of skat.js.
--
-- Doppelkopf (doko.js) is played in the same way by four:
--   Doko/Cards         SUITS, RANKS, EYES, SOLOS, trumps, plainOrder, isTrump, follows, power,
--                      bestIndex, trickWinner, legalCards
--   Doko/State         rules, next, start, turn, begin
--   Doko/Calls         NEED, knownParty, ownParty, opp, callOk
--   Doko/Apply         apply
--   Doko/Parties       parties, and target and met of result
--   Doko/Score         result
--   Doko/Moves         actions, weakest, auto, explain
--   Doko/Audit         DECK, audit
--   Doko/Layout        layout
--   Doko/Follow        the cards that may be played
--   Doko/Twice, Doko/Played   how often a card can be played
--   Doko/Balance, Doko/Winner the points, and what a party needs to win
--   Doko/Scenarios     tests, and games at which the theorems are applied
-- The level -1 of a party that has called nothing is `none`.
--
-- A call (call-core.js) is a state machine between the user, the channel, the browser's connection and
-- timers. One endpoint per channel holds at most one session and gives it the messages that pass the
-- check of protocol.js:
--   Call/Message       the checked messages, iceUrlHost
--   Call/Values        the values of a message that has come, TYPES, REASONS, CALL_ID
--   Call/Parse         parseMessage, parseIceServers
--   Call/Encode        a message as it is sent
--   Call/RoundTrip     what is sent, and what the check makes of it
--   Call/Servers, Call/Bounds     what the check lets through
--   Call/Statistics    sample; in the session a sample is the number of its packets
--   Call/Session       State, DEFAULT_TIMING, the constructor and the state of CallSession
--   Call/Timers        setState, enqueue, after, every, clear, finish, dial, accept, decline, hangup,
--                      setMuted, markConnected
--   Call/Loss          onPcState, watchMedia, renegotiated, onLinkLost, scheduleRestart, networkChanged
--   Call/Offer         onAccepted, prepareConnection, fetchIceServers, pcConfig, sendOffer, restartIce
--   Call/Answer        allowedPeerServers, onOffer, onAnswer, onIce, flushCandidates
--   Call/Step          receive, the callbacks of the timers, the queue, one event and a history
--   Call/TimerLemmas, Call/Ended, Call/Replies, Call/Silence   a call that has ended
--   Call/Order, Call/Rising, Call/Onward, Call/History         the order of the states
--   Call/Early, Call/Microphone   a call that nobody has accepted
--   Call/Endpoint      CallEndpoint, stateLabel
--   Call/Remembered, Call/OneCall, Call/Late   the calls that an endpoint remembers, late invitations
--   Call/SecondCall    a second call
--   Call/Scenarios     tests, and histories at which the theorems are applied
--
-- Editing together (apps/duell-web/src/collab.js): two sides exchange operations on fields and stickers:
--   Collab/Merge       MAX_IDS, MAX_JUMP, MAX_CLOCK, STICKER, wins, idCount, okClock, okStamp, apply
--   Collab/Effect, Collab/Stepped   what an operation does to one field and to one sticker
--   Collab/Converge    operations in another order
--   Collab/Outbox      MAX_OPS, MAX_FRAME, queue, tick of the clock, setLocal, putSticker, kill, fullOps,
--                      takeOps
--   Collab/Session     the state of create, okMeta, asksFull, pick, connected, disconnected, tick,
--                      hasWork, peerHere
--   Collab/Receive     receive, and a run of events at one side
--   Collab/Frames, Collab/Rate   how long a frame is, and how often one is sent
--   Collab/Names       birth, byBirth, visible, and the names of new stickers
--   Collab/Document    LOCAL_IDS, seed, local
--   Collab/Shown       applyTo, doc
--   Collab/ShownFields, Collab/Screen   what is on the screen after applyTo
--   Collab/Scenarios   operations that meet, a session, and a page
-- The rules of a field's values and the cleaning of stickers (daily.js, core.js) are parameters: nothing
-- is assumed of them. An actor stands as the number that compares as its text does.
--
-- Its tokens are counted in 625ths, so that 1.6 tokens in a second are one unit in a millisecond; the
-- source keeps them as a floating-point number. The digest of the state, the length of an operation as
-- it is sent, the filters of names and the tests of equal values (`same`) are parameters too. A document
-- stands as its fields, as `flatten` gives them, and its stickers, each an object with an identity.
--
-- Turn games (apps/duell-web/src/turns.js, with hash32 and mulberry32 of core.js): two players send each
-- other a link that holds all moves, and each device reads them with the same checks:
--   Turns/Words        hash32, mulberry32, and ^ and | on words of w bits
--   Turns/Value        the values of an answer, intIn, distinct
--   Turns/Base64       btoa and atob (RFC 4648), and their form in a link
--   Turns/Base64/RoundTrip   what is read back from such a text
--   Turns/Seal         BLOB, stream, seal, unseal
--   Turns/Seal/RoundTrip     what is read back from a seal
--   Turns/Blocks       SIZE, BLOCKS, blockAt, fits, drop, replay, canMove
--   Turns/Answer, Turns/Check   okAnswer
--   Turns/Engine       checked, moves, state, play, gate, close, fresh
--   Turns/Played       what a device reads from the card that another has played on
--   Turns/Scenarios    tests, and a game at which the theorems are applied
-- JSON.stringify and JSON.parse on bytes, the filters of texts (quest.js), the check of a shopping
-- list (shopOk, the field `ok_list` of a prompt) and the functions that a prompt or a game brings are
-- parameters; of JSON it is assumed, for the moves that are sealed, that they are read back and that
-- their bytes are bytes. What `store` of a game keeps of a turn may be any value. A number that is no
-- integer, null and an object are one value, which no check accepts by itself; that Q.fold throws for
-- an object which cannot be made a text is not modelled. The seed in `stream` is written with at most
-- ten digits, enough for the seeds that sanitize lets through.
--
-- How the calls are read. An asynchronous function is cut at each `await`: `running` says at which of
-- them the running task of the queue waits, and a reply event goes on from there. The calls of
-- RTCPeerConnection, getUserMedia and the servers are replies that the events bring, in any order and
-- with any contents; a rejected promise is `peer_failed`, `media_refused` or no servers. The time is an
-- argument of each step, and a timeout or an interval may fire at any step as long as it is pending, so
-- nothing is assumed of the clock. The messages sent and the calls of `onEnded` are recorded in the
-- state. A session that was replaced is over, and its late events are not followed. A text is the list
-- of its UTF-16 code units; `toLowerCase` is modelled for ASCII. The number of bytes of a text
-- (TextEncoder) is a parameter of the check. The epoch of answers, -1 in the source, is `none`.
--
-- How the card games are read. `copy` makes the state of `apply` a value, so `apply` is a function from a
-- state to an outcome: `ok` with the new state, `fail` with the reason, or `thrown` for a JavaScript
-- exception. Seats are natural numbers, and the seat -1 of the source is `none`. The fields of a
-- message that are of the wrong type are `none` or 0, which the source refuses at the same place. A
-- seat or a bid that is no natural number is not modelled, and neither is the spelling of cards and
-- games as strings. What is shown at the end of a game are cards, by their type: a text that is no
-- card, which `isCard` of skat.js and bauernskat.js and the comparison with DECK of doko.js refuse in
-- the audit, cannot be written down here, so those tests never fail by such a text. A case of the
-- source that reads a field of null is `thrown`, or `none` where the function answers with a value: so
-- are a score and an audit for a hand or stacks that the deal lacks. Only `declarer_result` of
-- Skat/Score stands for the score where there is one, and reads a missing hand as no cards; `result`
-- of Skat/Ramsch, which calls it, is `none` there unless the game is a Null. The sort of `auto` is
-- stable, as in JavaScript; the name of a card is compared by its character codes.
--
-- Bounds: the measure of Skat/Termination/Measure adds up what is left of a game: the stages of the
-- auction and the values up to 264, then the phases of the announcement, then the thirty cards and the
-- two calls of Kontra and Re. It is 1828 for a new game. The loops of the source go over lists, and
-- a scan of the block game over its 64 cells. Only a number that is written out is cut off, after ten
-- digits for a seed and thirteen for a clock, which neither exceeds.
--
-- Not modelled: the table and the other games of the app; the pages and everything that draws; rules,
-- flatten, assign, hash and snapshot of collab.js; the single turn games but the block game.
pub mod Common
pub mod Skat
pub mod Bauernskat
pub mod Call
pub mod Doko
pub mod Collab
pub mod Turns
