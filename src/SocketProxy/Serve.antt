-- ===== src/SocketProxy/Serve.antt =====
-- `Serve` of daemon/src/socket_proxy.cpp: which clients it relays, and the descriptors that it leaves.
use vcames.Common.{
  ℕ, ◌≡◌, refl, arith, ◌⊎◌, ap, subst, ◌∙◌, inl, inr, true, Option, none, some, List, [], ◌∷◌, ◌++◌,
  ◌==◌, Bool-cases, Option-cases, All,
}
use mathlib.Core.List.{Memᴰ}
use mathlib.Core.List.Memᴰ.{head, tail}
use vcames.V4l2Sink.{without}
use vcames.V4l2Sink.Open.{held, Final-cases, without-head}
use vcames.SocketProxy.{
  Relaying, eintr, relay, is_allowed_client, Turn, Serving, connect_target, serve_connected,
  serve_allowed, serve_client, serve,
}
use vcames.SocketProxy.Refines.{IsRelayed, relay-IsRelayed}

-- The kernel gives the user of the client, and it is the allowed one, root or the system.
abbrev pub IsAllowed : ℕ → Option ℕ → Type 0
IsAllowed allowed_uid credentials =
    (uid : ℕ) × (credentials ≡ some uid) × ((uid ≡ allowed_uid) ⊎ (uid ≡ 0) ⊎ (uid ≡ 1000))

is_allowed_client-IsAllowed :
    (credentials : Option ℕ) (allowed_uid : ℕ)
    → is_allowed_client credentials allowed_uid ≡ true
    → IsAllowed allowed_uid credentials
unfolding is_allowed_client
is_allowed_client-IsAllowed none allowed_uid h = cc
is_allowed_client-IsAllowed (some uid) allowed_uid h = (uid, refl, ground arith)

-- A relay in one of the turns, with an allowed client, that kept the promise of two pipes.
abbrev pub IsServed : ℕ → List Turn → Option ℕ × Relaying → Type 0
IsServed allowed_uid turns (credentials, s) =
    (t : Turn) × Memᴰ t turns
    × (credentials ≡ t.credentials)
    × IsAllowed allowed_uid credentials
    × IsRelayed t.rounds s

-- What `Serve` keeps.
pub record IsServing (allowed_uid : ℕ) (files : List ℕ) (turns : List Turn) (s : Serving)
    : Type 0 where
  pub same_files : s.open_files ≡ files
  pub all_served : All (IsServed allowed_uid turns) s.relays

serve_connected-IsServing :
    (allowed_uid : ℕ) (others : List ℕ) (turns : List Turn) (t : Turn) (client : ℕ) (s s' : Serving)
    (target : Option ℕ) (files : List ℕ)
    → Memᴰ t turns
    → is_allowed_client t.credentials allowed_uid ≡ true
    → All (IsServed allowed_uid turns) s.relays
    → files ≡ held target ++ (client ∷ others)
    → serve_connected t client s target files ≡ some s'
    → IsServing allowed_uid others turns s'
unfolding serve_connected
serve_connected-IsServing allowed_uid others turns t client s s' none files mem allowed served are
      h =
    let same : record s { open_files = without client files } ≡ s' = cc h in
    subst (IsServing allowed_uid others turns) same
      (record { same_files = rw are (without-head client others); all_served = served })
serve_connected-IsServing allowed_uid others turns t client s s' (some target) files mem allowed
      served are h =
    elim (Option-cases (relay client target t.rounds files)) [
      | inl missing ↦ cc (rw (serve_connected, missing) at h)
      | inr ((r, left), is) ↦
          let same : record s { open_files = left; relays = (t.credentials, r) ∷ s.relays } ≡ s' =
            cc (rw (serve_connected, is) at h) in
          let (relayed, closed) =
            relay-IsRelayed client target t.rounds others left r (rw are at is) in
          subst (IsServing allowed_uid others turns) same (record {
            same_files = closed;
            all_served = (
              (
                t,
                mem,
                refl,
                is_allowed_client-IsAllowed t.credentials allowed_uid allowed,
                relayed,
              ),
              served,
            );
          })
    ]

serve_allowed-IsServing :
    (allowed_uid : ℕ) (others : List ℕ) (turns : List Turn) (t : Turn) (client : ℕ) (s s' : Serving)
    → Memᴰ t turns
    → is_allowed_client t.credentials allowed_uid ≡ true
    → All (IsServed allowed_uid turns) s.relays
    → s.open_files ≡ client ∷ others
    → serve_allowed t client s ≡ some s'
    → IsServing allowed_uid others turns s'
unfolding serve_allowed connect_target
serve_allowed-IsServing allowed_uid others turns t client s s' mem allowed served are h =
    elim (Option-cases t.target_socket) [
      | inl no_socket ↦
          serve_connected-IsServing allowed_uid others turns t client s s' none s.open_files mem
            allowed served are (rw (serve_allowed, no_socket) at h)
      | inr (fd, is) ↦ elim (Bool-cases t.connects) [
        | inl connected ↦
            serve_connected-IsServing allowed_uid others turns t client s s' (some fd)
              (fd ∷ s.open_files) mem allowed served (ap (◌∷◌ fd) are)
              (rw (serve_allowed, is, connected) at h)
        | inr refused ↦
            serve_connected-IsServing allowed_uid others turns t client s s' none
              (without fd (fd ∷ s.open_files)) mem allowed served
              (without-head fd s.open_files ∙ are) (rw (serve_allowed, is, refused) at h)
      ]
    ]

serve_client-IsServing :
    (allowed_uid : ℕ) (files : List ℕ) (turns : List Turn) (t : Turn) (client : ℕ) (s s' : Serving)
    → Memᴰ t turns
    → IsServing allowed_uid files turns s
    → serve_client allowed_uid t client s ≡ some s'
    → IsServing allowed_uid files turns s'
unfolding serve_client
serve_client-IsServing allowed_uid files turns t client s s' mem i h =
    elim (Bool-cases (is_allowed_client t.credentials allowed_uid)) [
      | inl allowed ↦
          serve_allowed-IsServing allowed_uid files turns t client
            (record s { open_files = client ∷ s.open_files }) s' mem allowed i.all_served
            (ap (◌∷◌ client) i.same_files) (rw (serve_client, allowed) at h)
      | inr denied ↦
          let same : record s { open_files = without client (client ∷ s.open_files) } ≡ s' =
            cc (rw (serve_client, denied) at h) in
          subst (IsServing allowed_uid files turns) same (record {
            same_files = without-head client s.open_files ∙ i.same_files;
            all_served = i.all_served;
          })
    ]

module _ (allowed_uid : ℕ) (files : List ℕ) (turns : List Turn) where
  serve-IsServing_from :
      (later : List Turn) (s s' : Serving)
      → ((t : Turn) → Memᴰ t later → Memᴰ t turns)
      → IsServing allowed_uid files turns s
      → serve allowed_uid later s ≡ some s'
      → IsServing allowed_uid files turns s'
  unfolding serve
  serve-IsServing_from [] s s' among i h = cc
  serve-IsServing_from (t ∷ later) s s' among i h = elim (Bool-cases t.stop) [
    | inl stops ↦
        let same : s ≡ s' = cc (rw (serve, stops) at h) in
        subst (IsServing allowed_uid files turns) same i
    | inr goes ↦ elim (Final-cases t.accepted) [
      | inl (errno, is) ↦ elim (Bool-cases (errno == eintr)) [
        | inl again ↦
            serve-IsServing_from later s s' (λ u m. among u (tail m)) i
              (rw (serve, goes, is, again) at h)
        | inr broken ↦
            let same : s ≡ s' = cc (rw (serve, goes, is, broken) at h) in
            subst (IsServing allowed_uid files turns) same i
      ]
      | inr (client, is) ↦ elim (Option-cases (serve_client allowed_uid t client s)) [
        | inl missing ↦ cc (rw (serve, goes, is, missing) at h)
        | inr (u, is_u) ↦
            serve-IsServing_from later u s' (λ v m. among v (tail m))
              (serve_client-IsServing allowed_uid files turns t client s u (among t (head refl)) i
                is_u)
              (rw (serve, goes, is, is_u) at h)
      ]
    ]
  ]

-- Whatever the kernel answers: when `Serve` ends, the process has the descriptors that it had at the start,
-- and each relay belongs to a turn whose client has a user that the kernel gives: the user that the
-- options allow, root or the system; by the rounds of that turn it kept the promise of two pipes.
pub serve-IsServing :
    (allowed_uid : ℕ) (files : List ℕ) (turns : List Turn) (s' : Serving)
    → serve allowed_uid turns (record { open_files = files; relays = [] }) ≡ some s'
    → IsServing allowed_uid files turns s'
serve-IsServing allowed_uid files turns s' h =
    serve-IsServing_from allowed_uid files turns turns _ s' (λ t m. m)
      (record { same_files = refl; all_served = tt }) h
