-- ===== src/SocketProxy/Tests.antt =====
-- A relay and a server of daemon/src/socket_proxy.cpp on scripts of answers, with the theorems at them.
use vcames.Common.{ℕ, ◌≡◌, refl, true, false, none, some, List, [], ◌∷◌, inr}
use vcames.V4l2Sink.{gives, without}
use vcames.SocketProxy.{
  interrupted, sent, Relaying, Round, ready, timed_out, relay, Turn, Serving, serve,
}
use vcames.SocketProxy.Ends.{relay-ends}
use vcames.SocketProxy.Refines.{IsRelayed, relay-IsRelayed}
use vcames.SocketProxy.Serve.{IsServing, serve-IsServing}

abbrev answers : Round
answers = record {
  stop = false;
  polled = ready true true false;
  client_read = some (1 ∷ 2 ∷ 3 ∷ []);
  target_read = none;
  target_sends = sent 2 ∷ interrupted ∷ sent 1 ∷ [];
  client_sends = [];
}

abbrev last_answers : Round
last_answers = record answers { client_read = some (4 ∷ 5 ∷ []); target_sends = sent 1 ∷ [] }

abbrev rounds : List Round
rounds = answers ∷ record answers { polled = timed_out } ∷ last_answers ∷ []

-- The second write to the target fails behind a byte.
abbrev relayed : Relaying
relayed = record {
  to_target = record {
    offered = 1 ∷ 2 ∷ 3 ∷ 4 ∷ 5 ∷ [];
    delivered = 1 ∷ 2 ∷ 3 ∷ 4 ∷ [];
    readable = true;
  };
  to_client = record { offered = []; delivered = []; readable = false };
  over = true;
}

relays : relay 7 8 rounds (8 ∷ 7 ∷ 3 ∷ []) ≡ some (relayed, 3 ∷ [])
unfolding relay
relays = refl

abbrev others : List ℕ
others = 3 ∷ []

relay-IsRelayed_example : IsRelayed rounds relayed × (others ≡ others)
relay-IsRelayed_example = relay-IsRelayed 7 8 rounds others others relayed relays

abbrev end_answers : Round
end_answers = record answers { polled = ready true true false; client_read = none }

relay-ends_example :
    (s : Relaying) × (relay 7 8 (answers ∷ end_answers ∷ answers ∷ []) (8 ∷ 7 ∷ 3 ∷ [])
      ≡ some (s, without 7 (without 8 (8 ∷ 7 ∷ 3 ∷ []))))
relay-ends_example = relay-ends 7 8 (answers ∷ []) end_answers answers [] (8 ∷ 7 ∷ 3 ∷ []) (
    inr
      (record { is_broken = false; polled_both = refl; client_ended = refl; target_ended = refl }))

abbrev turn : Turn
turn = record {
  stop = false;
  accepted = gives 7;
  credentials = some 10123;
  target_socket = some 8;
  connects = true;
  rounds = rounds;
}

-- A client, one that is not allowed, one whose target is not there, and a stop.
abbrev turns : List Turn
turns =
    turn
    ∷ record turn { credentials = some 10124 }
    ∷ record turn { connects = false }
    ∷ record turn { stop = true }
    ∷ []

abbrev listening : Serving
listening = record { open_files = 3 ∷ []; relays = [] }

abbrev served : Serving
served = record { open_files = 3 ∷ []; relays = (some 10123, relayed) ∷ [] }

serves : serve 10123 turns listening ≡ some served
unfolding serve
serves = refl

serve-IsServing_example : IsServing 10123 (3 ∷ []) turns served
serve-IsServing_example = serve-IsServing 10123 (3 ∷ []) turns served serves

-- Root passes, whatever user the options allow.
root_passes :
    serve 10123 (record turn { credentials = some 0 } ∷ record turn { stop = true } ∷ []) listening
    ≡ some (record { open_files = 3 ∷ []; relays = (some 0, relayed) ∷ [] })
unfolding serve
root_passes = refl
