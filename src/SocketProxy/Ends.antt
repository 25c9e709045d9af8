-- ===== src/SocketProxy/Ends.antt =====
-- `Relay` of daemon/src/socket_proxy.cpp: when its loop is left.
use vcames.Common.{
  ℕ, ◌≡◌, refl, ◌⊎◌, inl, inr, Bool, true, false, not, ◌||◌, none, some, List, [], ◌∷◌, ◌++◌, arith,
  Bool-cases,
}
use vcames.SocketProxy.{
  Relaying, Round, ready, forward, serve_client_side, serve_target_side, check_broken, unless_over,
  relay_round, relay_loop, relay, new_relaying,
}
use vcames.V4l2Sink.{without}

-- Neither connection gives anything any more.
abbrev IsDone : Relaying → Type 0
IsDone s = (s.to_target.readable ≡ false) × (s.to_client.readable ≡ false)

-- A round that finds both connections at their end.
pub record FindsEnd (r : Round) : Type 0 where
  pub is_broken : Bool
  pub polled_both : r.polled ≡ ready true true is_broken
  pub client_ended : r.client_read ≡ none
  pub target_ended : r.target_read ≡ none

serve_client_side-ends :
    (r : Round) (s : Relaying)
    → s.over ≡ false
    → r.client_read ≡ none
    → ((serve_client_side true r s).over ≡ false)
      × ((serve_client_side true r s).to_target.readable ≡ false)
unfolding serve_client_side forward
serve_client_side-ends r s on ended = elim (Bool-cases s.to_target.readable) [
  | inl flows ↦ rw (serve_client_side, flows, ended) (refl, refl)
  | inr idle ↦ rw (serve_client_side, idle) (on, refl)
]

serve_target_side-IsDone :
    (r : Round) (s : Relaying)
    → s.to_target.readable ≡ false
    → r.target_read ≡ none
    → IsDone (serve_target_side true r s)
unfolding serve_target_side forward
serve_target_side-IsDone r s target_idle ended = elim (Bool-cases s.to_client.readable) [
  | inl flows ↦ rw (serve_target_side, flows, ended) (target_idle, refl)
  | inr idle ↦ rw (serve_target_side, idle) (target_idle, refl)
]

check_broken-IsDone :
    (is_broken : Bool) (s : Relaying) → IsDone s → IsDone (unless_over (check_broken is_broken) s)
unfolding unless_over check_broken
check_broken-IsDone is_broken s done = elim (Bool-cases s.over) [
  | inl over ↦ rw (unless_over, over) done
  | inr on ↦ elim (Bool-cases is_broken) [
    | inl broken ↦ rw (unless_over, on, broken) done
    | inr fine ↦ rw (unless_over, on, fine) done
  ]
]

relay_round-IsDone :
    (r : Round) (s : Relaying) → s.over ≡ false → FindsEnd r → IsDone (relay_round r s)
unfolding relay_round unless_over
relay_round-IsDone r s on f =
    let (client_on, client_done) = serve_client_side-ends r s on f.client_ended in
    rw (relay_round, f.polled_both)
      (check_broken-IsDone f.is_broken
        (unless_over (serve_target_side true r) (serve_client_side true r s))
        (rw (unless_over, client_on)
          (serve_target_side-IsDone r (serve_client_side true r s) client_done f.target_ended)))

-- Why the loop is left by the round behind `last`.
abbrev pub EndsBehind : Round → Type 0
EndsBehind last = (last.stop ≡ true) ⊎ FindsEnd last

relay_loop-ends :
    (earlier : List Round) (last next : Round) (later : List Round) (s : Relaying)
    → s.over ≡ false
    → EndsBehind last
    → (s' : Relaying) × (relay_loop (earlier ++ (last ∷ next ∷ later)) s ≡ some s')
unfolding relay_loop
relay_loop-ends [] last next later s on ends =
    elim (Bool-cases (last.stop || not (s.to_target.readable || s.to_client.readable))) [
      | inl left ↦ (s, rw (relay_loop, left) refl)
      | inr goes ↦ elim (Bool-cases (relay_round last s).over) [
        | inl over ↦ (relay_round last s, rw (relay_loop, goes, over) refl)
        | inr going ↦ elim ends [
          | inl stops ↦ cc (rw stops at goes)
          | inr f ↦
              let (target_done, client_done) = relay_round-IsDone last s on f in
              let left : (next.stop
                    || not (
                        (relay_round last s).to_target.readable
                        || (relay_round last s).to_client.readable))
                  ≡ true =
                rw (target_done, client_done) (ground arith) in
              (relay_round last s, rw (relay_loop, goes, going, left) refl)
        ]
      ]
    ]
relay_loop-ends (r ∷ earlier) last next later s on ends =
    elim (Bool-cases (r.stop || not (s.to_target.readable || s.to_client.readable))) [
      | inl left ↦ (s, rw (relay_loop, left) refl)
      | inr goes ↦ elim (Bool-cases (relay_round r s).over) [
        | inl over ↦ (relay_round r s, rw (relay_loop, goes, over) refl)
        | inr going ↦
            let (s', is) = relay_loop-ends earlier last next later (relay_round r s) going ends in
            (s', rw (relay_loop, goes, going) is)
      ]
    ]

-- Whatever was relayed before, a relay ends by the round behind one in which it is asked to stop or finds
-- both connections at their end.
pub relay-ends :
    (client target : ℕ) (earlier : List Round) (last next : Round) (later : List Round)
    (open_files : List ℕ)
    → EndsBehind last
    → (s : Relaying) × (relay client target (earlier ++ (last ∷ next ∷ later)) open_files
        ≡ some (s, without client (without target open_files)))
unfolding relay
relay-ends client target earlier last next later open_files ends =
    let (s, is) = relay_loop-ends earlier last next later new_relaying refl ends in
    (s, rw (relay, is) refl)
