-- ===== src/SocketProxy.antt =====
-- daemon/src/socket_proxy.cpp: the relay between two connections, and the server that starts it. What the
-- kernel answers is an argument.
pub mod Pipe
pub mod Refines
pub mod Ends
pub mod Serve
mod Tests
use vcames.Common.{
  ℕ, zero, suc, ◌+◌, ◌-◌, ◌*◌, ◌/◌, ◌%◌, ◌^◌, ◌≤◌, ◌<◌, min, String, ◌≡◌, refl, sym, ap, subst, ◌∙◌,
  ◌≢◌, ◌↔◌, ◌⊎◌, inl, inr, Bool, true, false, not, ◌&&◌, ◌||◌, Option, none, some, List, [], ◌∷◌,
  ◌++◌, map, append-nil, append_assoc, arith, ltb, leb, ◌==◌, if◌then◌else◌, ltb→lt, lt→ltb, leb→le,
  le→leb, ==_iff, Bool-cases, Option-cases, length, is_empty, get_elem?, take, drop, replicate, any,
  all, All, length-append, take-append-drop, length-take, length-drop, take-append, drop-append,
  drop-drop, length-replicate, get_elem?-append_front, get_elem?-append_behind, ◌⊖◌, ◌+ℤ◌,
  shift_right_8, quarter, ⊖-pos, ⊖-negsuc, ℤ, pos, negsuc, ==ℤ_iff, ◌==ℤ◌, to_decimal, to_string,
  Bytes, equal_iff, equal_self, starts_with-drop, starts_with-append, find-split, find-starts_with,
  find-append, find_index-none, find_index-some, find_index-all, find_index-append, bytes, equal,
  starts_with, find, find_index,
}
use vcames.V4l2Sink.{Final, fails_with, gives, without}

-- What `send` answers; the list of them ends where it fails, and a send of nothing is a failure, too.
pub data Sent : Type 0 where
  interrupted : Sent
  sent : ℕ → Sent

-- What `WriteAll` has written, and what it returns.
unfoldable pub write_all : List Sent → Bytes → Bytes × Bool
write_all answers [] = ([], true)
write_all [] (c ∷ s) = ([], false)
write_all (interrupted ∷ answers) (c ∷ s) = write_all answers (c ∷ s)
write_all (sent zero ∷ answers) (c ∷ s) = ([], false)
write_all (sent (suc n) ∷ answers) (c ∷ s) =
    let (rest, succeeded) = write_all answers (drop (suc n) (c ∷ s)) in
    (take (suc n) (c ∷ s) ++ rest, succeeded)

-- One direction: what has been read from one end, what has been written to the other, and whether the
-- reading end may still give something. When it does not, the writing end has been shut down.
pub record Channel : Type 0 where
  pub offered : Bytes
  pub delivered : Bytes
  pub readable : Bool

pub record Relaying : Type 0 where
  pub to_target : Channel
  pub to_client : Channel
  pub over : Bool

-- What `poll` answers: an error, a timeout, or whether there is something to read from the client and from
-- the target, and whether there is an error on one of them.
pub data Polled : Type 0 where
  poll_failed : ℕ → Polled
  timed_out : Polled
  ready : Bool → Bool → Bool → Polled

-- What one round of the loop finds. A read gives `none` at the end of a connection, or an error.
pub record Round : Type 0 where
  pub stop : Bool
  pub polled : Polled
  pub client_read : Option Bytes
  pub target_read : Option Bytes
  pub target_sends : List Sent
  pub client_sends : List Sent

abbrev pub eintr : ℕ
eintr = 4

-- A read, and the write or the shutdown that follows; the flag is whether the loop goes on.
unfoldable pub forward : Option Bytes → List Sent → Channel → Channel × Bool
unfolding write_all
forward none sends c = (record c { readable = false }, true)
forward (some data_read) sends c =
    let (written, succeeded) = write_all sends data_read in
    (record c { offered = c.offered ++ data_read; delivered = c.delivered ++ written }, succeeded)

unfoldable pub serve_client_side : Bool → Round → Relaying → Relaying
unfolding forward
serve_client_side has_input r s =
    if s.to_target.readable && has_input
    then (let (c, goes_on) = forward r.client_read r.target_sends s.to_target in
        record s { to_target = c; over = not goes_on })
    else s

unfoldable pub serve_target_side : Bool → Round → Relaying → Relaying
unfolding forward
serve_target_side has_input r s =
    if s.to_client.readable && has_input
    then (let (c, goes_on) = forward r.target_read r.client_sends s.to_client in
        record s { to_client = c; over = not goes_on })
    else s

-- The end of a round.
unfoldable pub check_broken : Bool → Relaying → Relaying
check_broken is_broken s = if is_broken then record s { over = true } else s

unless_over : (Relaying → Relaying) → Relaying → Relaying
unless_over next s = if s.over then s else next s

unfoldable pub relay_round : Round → Relaying → Relaying
unfolding serve_client_side serve_target_side check_broken unless_over
relay_round r s = elim r.polled [
  | poll_failed errno ↦ if errno == eintr then s else record s { over = true }
  | timed_out ↦ s
  | ready client_input target_input is_broken ↦
      unless_over (check_broken is_broken)
        (unless_over (serve_target_side target_input r) (serve_client_side client_input r s))
]

-- The loop of `Relay`. `none`: the rounds are used up, and it goes on.
unfoldable pub relay_loop : List Round → Relaying → Option Relaying
unfolding relay_round
relay_loop [] s = none
relay_loop (r ∷ rounds) s =
    if r.stop || not (s.to_target.readable || s.to_client.readable)
    then some s
    else (let s' = relay_round r s in
        elim s'.over [ true ↦ some s' | false ↦ relay_loop rounds s' ])

abbrev pub new_channel : Channel
new_channel = record { offered = []; delivered = []; readable = true }

abbrev pub new_relaying : Relaying
new_relaying = record { to_target = new_channel; to_client = new_channel; over = false }

-- `Relay`, with the descriptors that the process has open.
unfoldable pub relay : ℕ → ℕ → List Round → List ℕ → Option (Relaying × List ℕ)
unfolding relay_loop without
relay client target rounds open_files = elim (relay_loop rounds new_relaying) [
  | none ↦ none
  | some s ↦ some (s, without client (without target open_files))
]

-- `AllowedPeer`, from the credentials of the socket.
unfoldable pub is_allowed_client : Option ℕ → ℕ → Bool
is_allowed_client none allowed_uid = false
is_allowed_client (some uid) allowed_uid = uid == allowed_uid || uid == 0 || uid == 1000

-- What the kernel answers for one turn of `Serve`: the flag, `accept4`, the credentials, `socket` and
-- `connect` for the target, and the rounds of the relay.
pub record Turn : Type 0 where
  pub stop : Bool
  pub accepted : Final ℕ
  pub credentials : Option ℕ
  pub target_socket : Option ℕ
  pub connects : Bool
  pub rounds : List Round

-- The open descriptors, and each relay with the credentials of its client, the last one first.
pub record Serving : Type 0 where
  pub open_files : List ℕ
  pub relays : List (Option ℕ × Relaying)

-- `Connect`, with the descriptors that it leaves.
unfoldable pub connect_target : Option ℕ → Bool → List ℕ → Option ℕ × List ℕ
unfolding without
connect_target none connects files = (none, files)
connect_target (some fd) connects files =
    if connects then (some fd, fd ∷ files) else (none, without fd (fd ∷ files))

-- What follows `Connect`, with the descriptors that are then open.
unfoldable pub serve_connected : Turn → ℕ → Serving → Option ℕ → List ℕ → Option Serving
unfolding relay without
serve_connected t client s none files = some (record s { open_files = without client files })
serve_connected t client s (some target) files = elim (relay client target t.rounds files) [
  | none ↦ none
  | some (r, left) ↦ some (record { open_files = left; relays = (t.credentials, r) ∷ s.relays })
]

-- From the connection of an allowed client on.
unfoldable pub serve_allowed : Turn → ℕ → Serving → Option Serving
unfolding connect_target serve_connected
serve_allowed t client s =
    let (target, files) = connect_target t.target_socket t.connects s.open_files in
    serve_connected t client s target files

unfoldable pub serve_client : ℕ → Turn → ℕ → Serving → Option Serving
unfolding serve_allowed is_allowed_client without
serve_client allowed_uid t client s =
    if is_allowed_client t.credentials allowed_uid
    then serve_allowed t client (record s { open_files = client ∷ s.open_files })
    else some (record s { open_files = without client (client ∷ s.open_files) })

-- `Serve`. `none`: the turns are used up, and it goes on, or a relay does.
unfoldable pub serve : ℕ → List Turn → Serving → Option Serving
unfolding serve_client
serve allowed_uid [] s = none
serve allowed_uid (t ∷ turns) s = if t.stop then some s else elim t.accepted [
  | fails_with errno ↦ if errno == eintr then serve allowed_uid turns s else some s
  | gives client ↦ elim (serve_client allowed_uid t client s) [
    | none ↦ none
    | some s' ↦ serve allowed_uid turns s'
  ]
]
