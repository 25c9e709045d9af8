-- ===== src/Arguments/Proxy.antt =====
-- ParseOptions of daemon/src/socket_proxy.cpp: which options are safe to bind, and complete.
use vcames.Common.{
  ℕ, ◌≡◌, refl, subst, ◌≢◌, inl, inr, Bool, true, false, Option, none, some, List, [], ◌∷◌, arith,
  if◌then◌else◌, Bool-cases, Bytes, equal_iff, bytes, equal,
}
use vcames.Arguments.{
  is_given, is_safe_socket_name, parse_uid, Options, set_option, set_target, read_proxy_options,
  is_complete, parse_options,
}
use vcames.Arguments.Names.{IsSocketName, IsUid, is_safe_socket_name-IsSocketName}
use vcames.Arguments.Safe.{parse_uid-IsUid}

pub record IsSafeProxy (o : Options) : Type 0 where
  pub public_control : IsSocketName o.public_control
  pub private_control : IsSocketName o.private_control
  pub public_frames : IsSocketName o.public_frames
  pub private_frames : IsSocketName o.private_frames
  pub uid : IsUid o.allowed_uid

abbrev SafelyProxied : Option Options → Type 0
SafelyProxied none = Unit
SafelyProxied (some o) = IsSafeProxy o

SafelyProxied-if :
    (t : Bool) (x y : Option Options)
    → (t ≡ true → SafelyProxied x)
    → (t ≡ false → SafelyProxied y)
    → SafelyProxied (if t then x else y)
SafelyProxied-if true x y a b = a refl
SafelyProxied-if false x y a b = b refl

with_fields :
    (o : Options)
    → IsSocketName o.public_control
    → IsSocketName o.private_control
    → IsSocketName o.public_frames
    → IsSocketName o.private_frames
    → IsUid o.allowed_uid
    → IsSafeProxy o
with_fields o a b c d e = record {
  public_control = a;
  private_control = b;
  public_frames = c;
  private_frames = d;
  uid = e;
}

module _ (o : Options) (safe : IsSafeProxy o) where
  set_target-SafelyProxied :
      (argument value : Bytes) → IsSocketName value → SafelyProxied (set_target argument value o)
  unfolding set_target
  set_target-SafelyProxied argument value v =
      SafelyProxied-if (equal argument (bytes "--private-frames")) _ _
        (λ _. with_fields _ safe.public_control safe.private_control safe.public_frames v safe.uid)
        (λ _.
          SafelyProxied-if (equal argument (bytes "--public-frames")) _ _
            (λ _.
              with_fields _ safe.public_control safe.private_control v safe.private_frames safe.uid)
            (λ _.
              SafelyProxied-if (equal argument (bytes "--private-control")) _ _
                (λ _.
                  with_fields _ safe.public_control v safe.public_frames safe.private_frames
                    safe.uid)
                (λ _.
                  SafelyProxied-if (equal argument (bytes "--public-control")) _ _
                    (λ _.
                      with_fields _ v safe.private_control safe.public_frames safe.private_frames
                        safe.uid)
                    (λ _. tt))))

  with_uid :
      (u : Option ℕ)
      → IsUid u
      → SafelyProxied
          (elim u [ none ↦ none | some uid ↦ some (record o { allowed_uid = some uid }) ])
  with_uid none e = tt
  with_uid (some uid) e =
      with_fields _ safe.public_control safe.private_control safe.public_frames safe.private_frames
        e

  set_option-SafelyProxied : (argument value : Bytes) → SafelyProxied (set_option argument value o)
  unfolding set_option
  set_option-SafelyProxied argument value = by_name (equal argument (bytes "--allowed-uid"))
    where
      by_name :
          (t : Bool)
          → SafelyProxied (elim t [
            | true ↦ elim (parse_uid value) [
              | none ↦ none
              | some uid ↦ some (record o { allowed_uid = some uid })
            ]
            | false ↦ if is_safe_socket_name value then set_target argument value o else none
          ])
      by_name true = with_uid (parse_uid value) (parse_uid-IsUid value)
      by_name false =
          SafelyProxied-if (is_safe_socket_name value) _ _
            (λ e.
              set_target-SafelyProxied argument value (is_safe_socket_name-IsSocketName value e))
            (λ _. tt)

  with_drop : IsSafeProxy (record o { drop_to_system = true })
  with_drop = record {
    public_control = safe.public_control;
    private_control = safe.private_control;
    public_frames = safe.public_frames;
    private_frames = safe.private_frames;
    uid = safe.uid;
  }

-- What follows an option.
proxied :
    (next : Options → Option Options) (r : Option Options)
    → ((o : Options) → IsSafeProxy o → SafelyProxied (next o))
    → SafelyProxied r
    → SafelyProxied (elim r [ none ↦ none | some o' ↦ next o' ])
proxied next none safely u = tt
proxied next (some o) safely safe = safely o safe

either_option :
    (t : Bool) (x y : Option Options)
    → SafelyProxied x
    → SafelyProxied y
    → SafelyProxied (elim t [ true ↦ x | false ↦ y ])
either_option true x y a b = a
either_option false x y a b = b

read_proxy_options-SafelyProxied :
    (arguments : List Bytes) (o : Options)
    → IsSafeProxy o
    → SafelyProxied (read_proxy_options arguments o)
unfolding read_proxy_options
read_proxy_options-SafelyProxied [] o safe = safe
read_proxy_options-SafelyProxied (argument ∷ []) o safe =
    SafelyProxied-if (equal argument (bytes "--drop-to-system")) _ _ (λ _. with_drop o safe)
      (λ _. tt)
read_proxy_options-SafelyProxied (argument ∷ value ∷ rest) o safe =
    either_option (equal argument (bytes "--drop-to-system")) _ _
      (read_proxy_options-SafelyProxied (value ∷ rest) (record o { drop_to_system = true })
        (with_drop o safe))
      (proxied (read_proxy_options rest) (set_option argument value o)
        (read_proxy_options-SafelyProxied rest) (set_option-SafelyProxied o safe argument value))

-- What the proxy needs besides safe names: a user, and sockets that are not its own targets.
pub record IsComplete (o : Options) : Type 0 where
  pub user : (uid : ℕ) × (o.allowed_uid ≡ some uid)
  pub control_differs : o.public_control ≢ o.private_control
  pub frames_differ : o.public_frames ≢ o.private_frames

differ : (a b : Bytes) → equal a b ≡ false → a ≢ b
differ a b h e = let same : equal a b ≡ true = (equal_iff a b).1 e in cc

complete : (o : Options) → is_complete o ≡ true → IsComplete o
unfolding is_complete
complete o h = record {
  user = given o.allowed_uid (ground arith);
  control_differs = differ o.public_control o.private_control (ground arith);
  frames_differ = differ o.public_frames o.private_frames (ground arith);
}
  where
    given : (u : Option ℕ) → is_given u ≡ true → (uid : ℕ) × (u ≡ some uid)
    given none e = cc
    given (some uid) e = (uid, refl)

-- From safe options, as the defaults are, every command line that the proxy accepts leads to socket names
-- of 1 to 106 letters, digits and bytes of `_.-`; a public control socket other than the private one, and
-- public frames other than the private ones; and a user of 10000 to 2000000.
pub parse_options-IsSafeProxy :
    (arguments : List Bytes) (o o' : Options)
    → IsSafeProxy o
    → parse_options arguments o ≡ some o'
    → IsSafeProxy o' × IsComplete o'
unfolding parse_options
parse_options-IsSafeProxy arguments o o' safe h =
    accepted (read_proxy_options arguments o) (read_proxy_options-SafelyProxied arguments o safe) h
  where
    accepted :
        (r : Option Options)
        → SafelyProxied r
        → elim r [ none ↦ none | some p ↦ if is_complete p then some p else none ] ≡ some o'
        → IsSafeProxy o' × IsComplete o'
    accepted none u e = cc
    accepted (some p) safe' e = elim (Bool-cases (is_complete p)) [
      | inl all_given ↦
          let same : p ≡ o' = cc (rw all_given at e) in
          (subst IsSafeProxy same safe', subst IsComplete same (complete p all_given))
      | inr missing ↦ cc (rw missing at e)
    ]
