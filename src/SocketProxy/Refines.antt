-- ===== src/SocketProxy/Refines.antt =====
-- `Relay` of daemon/src/socket_proxy.cpp against two pipes.
use vcames.Common.{
  ℕ, zero, suc, ◌+◌, ◌≤◌, ◌<◌, length, length-drop, map, ◌≡◌, refl, sym, ap, subst, ◌∙◌, inl, inr,
  Bool, true, false, not, ◌&&◌, ◌||◌, Option, none, some, List, [], ◌∷◌, ◌++◌, arith, ◌==◌,
  if◌then◌else◌, Bool-cases, Option-cases, take, drop, all, take-append-drop, Bytes,
}
use vcames.SocketProxy.{
  Sent, interrupted, sent, write_all, Channel, Relaying, Round, poll_failed, timed_out, ready,
  Polled, eintr, forward, serve_client_side, serve_target_side, check_broken, unless_over,
  relay_round, relay_loop, relay, new_channel, new_relaying,
}
use vcames.SocketProxy.Pipe.{
  Exchange, capacity, pipe, carries, breaks, ends, Steps, stays, moves, joined, IsInOrder,
  Steps-IsInOrder,
}
use vcames.V4l2Sink.{without}
use vcames.V4l2Sink.Open.{without-head}

take_add : (n m : ℕ) (s : Bytes) → take n s ++ take m (drop n s) ≡ take (n + m) s
take_add zero m s = let e : 0 + m ≡ m = omega arith in rw e refl
take_add (suc n) m [] = let e : suc n + m ≡ suc (n + m) = omega arith in rw e (taken_from_nothing m)
  where
    taken_from_nothing : (m : ℕ) → take {A = ℕ} m [] ≡ []
    taken_from_nothing zero = refl
    taken_from_nothing (suc m) = refl
take_add (suc n) m (c ∷ s) =
    let e : suc n + m ≡ suc (n + m) = omega arith in rw e (ap (◌∷◌ c) (take_add n m s))

take_nothing : (n : ℕ) → take {A = ℕ} n [] ≡ []
take_nothing zero = refl
take_nothing (suc n) = refl

-- What is written is what the sends can take; it is all of the data exactly on success.
record IsWritten (sends : List Sent) (data_read : Bytes) (result : Bytes × Bool) : Type 0 where
  begins : result.0 ≡ take (capacity sends) data_read
  all_of_it : result.1 ≡ true → result.0 ≡ data_read
  fits : result.1 ≡ true → length data_read ≤ capacity sends
  short : result.1 ≡ false → capacity sends < length data_read

write_all-IsWritten :
    (sends : List Sent) (data_read : Bytes) → IsWritten sends data_read (write_all sends data_read)
unfolding write_all capacity
write_all-IsWritten sends [] = record {
  begins = sym (take_nothing (capacity sends));
  all_of_it = λ _. refl;
  fits = λ _. omega arith;
  short = λ w. cc;
}
write_all-IsWritten [] (c ∷ s) = record {
  begins = refl;
  all_of_it = λ w. cc;
  fits = λ w. cc;
  short = λ _. omega arith;
}
write_all-IsWritten (interrupted ∷ sends) (c ∷ s) =
    let rest = write_all-IsWritten sends (c ∷ s) in
    record {
      begins = rest.begins;
      all_of_it = rest.all_of_it;
      fits = rest.fits;
      short = rest.short;
    }
write_all-IsWritten (sent zero ∷ sends) (c ∷ s) = record {
  begins = refl;
  all_of_it = λ w. cc;
  fits = λ w. cc;
  short = λ _. omega arith;
}
write_all-IsWritten (sent (suc n) ∷ sends) (c ∷ s) =
    let rest = write_all-IsWritten sends (drop (suc n) (c ∷ s)) in
    let left = length-drop (suc n) (c ∷ s) in
    record {
      begins = rw rest.begins (take_add (suc n) (capacity sends) (c ∷ s));
      all_of_it = λ w.
          ap (◌++◌ (take (suc n) (c ∷ s))) (rest.all_of_it w) ∙ take-append-drop (suc n) (c ∷ s);
      fits = λ w. let room = rest.fits w in omega (arith, room, left);
      short = λ w. let no_room = rest.short w in omega (arith, no_room, left);
    }

abbrev pub exchange : Option Bytes → List Sent → Exchange
exchange data_read sends = record { data_read = data_read; sends = sends }

-- One direction of a round.
record IsForwarded (x : Exchange) (c : Channel) (result : Channel × Bool) : Type 0 where
  is_whole : Bool
  steps : Steps (x ∷ []) (pipe c true) (pipe result.0 is_whole)
  goes_on : result.1 ≡ true → is_whole ≡ true

forward-IsForwarded :
    (data_read : Option Bytes) (sends : List Sent) (c : Channel)
    → c.readable ≡ true
    → IsForwarded (exchange data_read sends) c (forward data_read sends c)
unfolding forward
forward-IsForwarded none sends c flows = record {
  is_whole = true;
  steps = moves _ [] _ _ _ (ends c flows refl) (stays [] _);
  goes_on = λ _. refl;
}
forward-IsForwarded (some data_read) sends c flows =
    let w = write_all-IsWritten sends data_read in
    elim (Bool-cases (write_all sends data_read).1) [
      | inl all ↦ record {
        is_whole = true;
        steps =
            rw (w.all_of_it all)
              (moves _ [] _ _ _ (carries c data_read flows refl (w.fits all)) (stays [] _));
        goes_on = λ _. refl;
      }
      | inr part ↦ record {
        is_whole = false;
        steps =
            rw w.begins
              (moves _ [] _ _ _ (breaks c data_read flows refl (w.short part)) (stays [] _));
        goes_on = λ on. cc;
      }
    ]

-- What a part of a run does to the two pipes, by what the kernel answers to them: both are whole while the
-- loop goes on.
pub record IsRefined (xs ys : List Exchange) (s s' : Relaying) : Type 0 where
  pub target_whole : Bool
  pub client_whole : Bool
  pub target_steps : Steps xs (pipe s.to_target true) (pipe s'.to_target target_whole)
  pub client_steps : Steps ys (pipe s.to_client true) (pipe s'.to_client client_whole)
  pub both_whole : s'.over ≡ false → (target_whole ≡ true) × (client_whole ≡ true)

nothing_done : (xs ys : List Exchange) (s : Relaying) → IsRefined xs ys s s
nothing_done xs ys s = record {
  target_whole = true;
  client_whole = true;
  target_steps = stays xs _;
  client_steps = stays ys _;
  both_whole = λ _. (refl, refl);
}

ended : (xs ys : List Exchange) (s : Relaying) → IsRefined xs ys s (record s { over = true })
ended xs ys s = record {
  target_whole = true;
  client_whole = true;
  target_steps = stays xs _;
  client_steps = stays ys _;
  both_whole = λ w. cc;
}

module _ (xs ys later_xs later_ys : List Exchange) where
  after :
      {s t u : Relaying}
      → t.over ≡ false
      → IsRefined xs ys s t
      → IsRefined later_xs later_ys t u
      → IsRefined (xs ++ later_xs) (ys ++ later_ys) s u
  after {s} {t} {u} on first second =
      let (w, v) = first.both_whole on in
      record {
        target_whole = second.target_whole;
        client_whole = second.client_whole;
        target_steps = joined xs later_xs _ _ _ (rw w at first.target_steps) second.target_steps;
        client_steps = joined ys later_ys _ _ _ (rw v at first.client_steps) second.client_steps;
        both_whole = second.both_whole;
      }

  left_early :
      {s t : Relaying} → IsRefined xs ys s t → IsRefined (xs ++ later_xs) (ys ++ later_ys) s t
  left_early first = record {
    target_whole = first.target_whole;
    client_whole = first.client_whole;
    target_steps = joined xs later_xs _ _ _ first.target_steps (stays later_xs _);
    client_steps = joined ys later_ys _ _ _ first.client_steps (stays later_ys _);
    both_whole = first.both_whole;
  }

  unless_over-IsRefined :
      (next : Relaying → Relaying) (s t : Relaying)
      → IsRefined xs ys s t
      → (t.over ≡ false → IsRefined later_xs later_ys t (next t))
      → IsRefined (xs ++ later_xs) (ys ++ later_ys) s (unless_over next t)
  unfolding unless_over
  unless_over-IsRefined next s t first second = by_over t.over refl
    where
      by_over :
          (b : Bool)
          → t.over ≡ b
          → IsRefined (xs ++ later_xs) (ys ++ later_ys) s (if b then t else next t)
      by_over true left = left_early first
      by_over false on = after on first (second on)

not-not : (b : Bool) → not b ≡ false → b ≡ true
not-not b h = ground arith

-- What the kernel answers to each direction in a round.
abbrev pub towards_target : Round → Exchange
towards_target r = exchange r.client_read r.target_sends

abbrev pub towards_client : Round → Exchange
towards_client r = exchange r.target_read r.client_sends

serve_client_side-IsRefined :
    (has_input : Bool) (r : Round) (s : Relaying)
    → s.over ≡ false
    → IsRefined (towards_target r ∷ []) [] s (serve_client_side has_input r s)
unfolding serve_client_side
serve_client_side-IsRefined has_input r s on =
    elim (Bool-cases (s.to_target.readable && has_input)) [
      | inr idle ↦ rw (serve_client_side, idle) (nothing_done _ _ s)
      | inl input ↦
          let flows : s.to_target.readable ≡ true = ground arith in
          let f = forward-IsForwarded r.client_read r.target_sends s.to_target flows in
          rw (serve_client_side, input)
            (record {
              target_whole = f.is_whole;
              client_whole = true;
              target_steps = f.steps;
              client_steps = stays [] _;
              both_whole = λ going. (
                f.goes_on (not-not (forward r.client_read r.target_sends s.to_target).1 going),
                refl,
              );
            })
    ]

serve_target_side-IsRefined :
    (has_input : Bool) (r : Round) (s : Relaying)
    → s.over ≡ false
    → IsRefined [] (towards_client r ∷ []) s (serve_target_side has_input r s)
unfolding serve_target_side
serve_target_side-IsRefined has_input r s on =
    elim (Bool-cases (s.to_client.readable && has_input)) [
      | inr idle ↦ rw (serve_target_side, idle) (nothing_done _ _ s)
      | inl input ↦
          let flows : s.to_client.readable ≡ true = ground arith in
          let f = forward-IsForwarded r.target_read r.client_sends s.to_client flows in
          rw (serve_target_side, input)
            (record {
              target_whole = true;
              client_whole = f.is_whole;
              target_steps = stays [] _;
              client_steps = f.steps;
              both_whole = λ going. (
                refl,
                f.goes_on (not-not (forward r.target_read r.client_sends s.to_client).1 going),
              );
            })
    ]

check_broken-IsRefined :
    (is_broken : Bool) (s : Relaying) → IsRefined [] [] s (check_broken is_broken s)
unfolding check_broken
check_broken-IsRefined true s = ended [] [] s
check_broken-IsRefined false s = nothing_done [] [] s

relay_round-IsRefined :
    (r : Round) (s : Relaying)
    → s.over ≡ false
    → IsRefined (towards_target r ∷ []) (towards_client r ∷ []) s (relay_round r s)
unfolding relay_round
relay_round-IsRefined r s on = by_answer r.polled
  where
    by_answer :
        (p : Polled)
        → IsRefined (towards_target r ∷ []) (towards_client r ∷ []) s (elim p [
          | poll_failed errno ↦ if errno == eintr then s else record s { over = true }
          | timed_out ↦ s
          | ready client_input target_input is_broken ↦
              unless_over (check_broken is_broken) (
                unless_over (serve_target_side target_input r) (serve_client_side client_input r s))
        ])
    by_answer (poll_failed errno) = elim (Bool-cases (errno == eintr)) [
      | inl again ↦ rw again (nothing_done _ _ s)
      | inr broken ↦ rw broken (ended _ _ s)
    ]
    by_answer timed_out = nothing_done _ _ s
    by_answer (ready client_input target_input is_broken) =
        unless_over-IsRefined (towards_target r ∷ []) (towards_client r ∷ []) [] []
          (check_broken is_broken) s
          (unless_over (serve_target_side target_input r) (serve_client_side client_input r s))
          (unless_over-IsRefined (towards_target r ∷ []) [] [] (towards_client r ∷ [])
            (serve_target_side target_input r) s (serve_client_side client_input r s)
            (serve_client_side-IsRefined client_input r s on)
            (λ going.
              serve_target_side-IsRefined target_input r (serve_client_side client_input r s)
                going))
          (λ _. check_broken-IsRefined is_broken _)

abbrev pub IsRun : List Round → Relaying → Relaying → Type 0
IsRun rounds s s' = IsRefined (map towards_target rounds) (map towards_client rounds) s s'

relay_loop-IsRun :
    (rounds : List Round) (s s' : Relaying)
    → s.over ≡ false
    → relay_loop rounds s ≡ some s'
    → IsRun rounds s s'
unfolding relay_loop
relay_loop-IsRun [] s s' on h = cc
relay_loop-IsRun (r ∷ rounds) s s' on h =
    elim (Bool-cases (r.stop || not (s.to_target.readable || s.to_client.readable))) [
      | inl stops ↦
          let same : s ≡ s' = cc (rw (relay_loop, stops) at h) in
          subst (IsRun (r ∷ rounds) s) same (nothing_done _ _ s)
      | inr goes ↦ elim (Bool-cases (relay_round r s).over) [
        | inl left ↦
            let same : relay_round r s ≡ s' = cc (rw (relay_loop, goes, left) at h) in
            subst (IsRun (r ∷ rounds) s) same (
              left_early (towards_target r ∷ []) (towards_client r ∷ []) (map towards_target rounds)
                (map towards_client rounds) (relay_round-IsRefined r s on))
        | inr going ↦
            after (towards_target r ∷ []) (towards_client r ∷ []) (map towards_target rounds)
              (map towards_client rounds) going (relay_round-IsRefined r s on)
              (relay_loop-IsRun rounds (relay_round r s) s' going
                (rw (relay_loop, goes, going) at h))
      ]
    ]

unsome : {p q : Relaying × List ℕ} → some p ≡ some q → p ≡ q
unsome e = cc

abbrev first : Relaying × List ℕ → Relaying
first (s, left) = s

abbrev second : Relaying × List ℕ → List ℕ
second (s, left) = left

-- What a relay that has ended has done, by what its rounds found.
pub record IsRelayed (rounds : List Round) (s : Relaying) : Type 0 where
  pub refined : IsRun rounds new_relaying s
  pub target_in_order : IsInOrder (pipe s.to_target refined.target_whole)
  pub client_in_order : IsInOrder (pipe s.to_client refined.client_whole)

new_pipe : IsInOrder (pipe new_channel true)
new_pipe = record { lost = []; in_order = refl; nothing_lost = λ _. refl }

-- Whatever the kernel answers: a relay that ends has done to each of its two directions what a pipe can do,
-- by the reads and the sends of its rounds. What is read from one end is written to the other in order
-- and once, and all of it, unless the sends of a round fail before they have taken what was read in it;
-- then they have taken the beginning of that, and nothing more is read. A direction is shut down only in a
-- round whose read gives nothing, at the end of the connection or on an error. Both connections are
-- closed, and no other descriptor is.
pub relay-IsRelayed :
    (client target : ℕ) (rounds : List Round) (others left : List ℕ) (s : Relaying)
    → relay client target rounds (target ∷ client ∷ others) ≡ some (s, left)
    → IsRelayed rounds s × (left ≡ others)
unfolding relay
relay-IsRelayed client target rounds others left s h =
    elim (Option-cases (relay_loop rounds new_relaying)) [
      | inl missing ↦ cc (rw (relay, missing) at h)
      | inr (t, is) ↦
          let closed : without client (without target (target ∷ client ∷ others)) ≡ others =
            rw (without-head target (client ∷ others)) (without-head client others) in
          let run : some (t, without client (without target (target ∷ client ∷ others)))
              ≡ some (s, left) =
            rw (relay, is) at h in
          let same_s : t ≡ s = ap first (unsome run) in
          let same_left : without client (without target (target ∷ client ∷ others)) ≡ left =
            ap second (unsome run) in
          let refined = relay_loop-IsRun rounds new_relaying t refl is in
          (
            subst (IsRelayed rounds) same_s (record {
              refined = refined;
              target_in_order = Steps-IsInOrder _ _ _ refined.target_steps new_pipe;
              client_in_order = Steps-IsInOrder _ _ _ refined.client_steps new_pipe;
            }),
            sym same_left ∙ closed,
          )
    ]
