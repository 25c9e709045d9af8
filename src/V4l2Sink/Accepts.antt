-- ===== src/V4l2Sink/Accepts.antt =====
-- `V4l2Sink::Open` of daemon/src/v4l2_sink.cpp: what makes an opening succeed.
use vcames.Common.{
  ℕ, ◌-◌, ◌/◌, ◌%◌, ◌^◌, ◌≤◌, ◌<◌, arith, pos, negsuc, ==ℤ_iff, [], ◌≡◌, refl, sym, ap, subst, ◌∙◌,
  ◌↔◌, ◌⊎◌, inl, inr, Bool, true, false, Option, none, some, List, ◌∷◌, ◌==◌, if◌then◌else◌, ==_iff,
  Bool-cases, ℤ,
}
use vcames.V4l2Sink.{
  interrupted, failed, given, to_int, V4l2Sink, OpenAnswers, OpenError, OpenResult, Final, Answer,
  Capability, PixelFormat, gives, fails_with, repeated, close, is_writable, is_accepted_format,
  set_parameters, set_format, query_capability, open_device, enotty, give_up, s_parm_failed,
  s_fmt_failed, querycap_failed, rejected_geometry, not_writable, cannot_open,
}
use vcames.V4l2Sink.Open.{Option-injective, Final-cases}

-- The answers as the code takes them.
record Passes (width height : ℤ) (answers : OpenAnswers) : Type 0 where
  descriptor : (fd : ℕ) × (answers.opened ≡ gives fd)
  capable : (c : Capability) × (repeated answers.querycap ≡ some (gives c)) × (is_writable c ≡ true)
  formatted :
      (f : PixelFormat) × (repeated answers.s_fmt ≡ some (gives f))
      × (is_accepted_format width height f ≡ true)
  timed :
      (repeated answers.s_parm ≡ some (gives tt))
      ⊎ (repeated answers.s_parm ≡ some (fails_with enotty))

abbrev Succeeds : Option OpenResult → Type 0
Succeeds o = (result : OpenResult) × (o ≡ some result) × (result.error ≡ none)

-- A call behind which an error gives up.
call-Succeeds {ℓ} :
    {Given : Type ℓ} (o : Option (Final Given)) (on_error : ℕ → Option OpenResult)
    (next : Given → Option OpenResult)
    → Succeeds (elim o [
      | none ↦ none
      | some (fails_with errno) ↦ on_error errno
      | some (gives g) ↦ next g
    ])
    → ((errno : ℕ) × (o ≡ some (fails_with errno)) × Succeeds (on_error errno))
      ⊎ ((g : Given) × (o ≡ some (gives g)) × Succeeds (next g))
call-Succeeds none on_error next (r, e, n) = cc
call-Succeeds (some (fails_with errno)) on_error next s = inl (errno, refl, s)
call-Succeeds (some (gives g)) on_error next s = inr (g, refl, s)

Succeeds-give_up {κ} :
    {A : Type κ} (sink : V4l2Sink) (e : OpenError) → Succeeds (give_up sink e) → A
Succeeds-give_up sink e (r, same, n) = cc (ap (λ x. x.error) (Option-injective same))

Succeeds-if :
    (t : Bool) (x : Option OpenResult) (sink : V4l2Sink) (e : OpenError)
    → Succeeds (if t then x else give_up sink e)
    → (t ≡ true) × Succeeds x
Succeeds-if true x sink e s = (refl, s)
Succeeds-if false x sink e s = Succeeds-give_up sink e s

set_parameters-ok :
    (answers : List (Answer (Unit {0}))) (sink : V4l2Sink)
    → Succeeds (set_parameters answers sink)
    → (repeated answers ≡ some (gives tt)) ⊎ (repeated answers ≡ some (fails_with enotty))
unfolding set_parameters
set_parameters-ok answers sink s = elim (call-Succeeds (repeated answers) _ _ s) [
  | inl (errno, e, s') ↦ elim (Bool-cases (errno == enotty)) [
    | inl same ↦ inr (e ∙ ap (λ n. some (fails_with n)) ((==_iff errno enotty).0 same))
    | inr other ↦ Succeeds-give_up sink (s_parm_failed errno) (rw other at s')
  ]
  | inr (tt, e, s') ↦ inl e
]

open_device-Passes :
    (width height : ℤ) (answers : OpenAnswers) (sink : V4l2Sink)
    → Succeeds (open_device width height answers sink)
    → Passes width height answers
unfolding open_device query_capability set_format
open_device-Passes width height answers sink s = elim (Final-cases answers.opened) [
  | inl (errno, e) ↦
      let (r, same, n) = s in cc (ap (λ x. x.error) (Option-injective (rw e at same)))
  | inr (fd, e) ↦
      let held : V4l2Sink = record { fd = some fd; open_files = fd ∷ (close sink).open_files } in
      let s' : Succeeds (query_capability width height answers held) = rw e at s in
      elim (call-Succeeds (repeated answers.querycap) _ _ s') [
        | inl (errno, _, q) ↦ Succeeds-give_up held (querycap_failed errno) q
        | inr (c, ec, q) ↦
            let (writable, q') = Succeeds-if (is_writable c) _ held not_writable q in
            elim (call-Succeeds (repeated answers.s_fmt) _ _ q') [
              | inl (errno, _, p) ↦ Succeeds-give_up held (s_fmt_failed errno) p
              | inr (f, ef, p) ↦
                  let (accepted, p') =
                    Succeeds-if (is_accepted_format width height f) _ held rejected_geometry p in
                  record {
                    descriptor = (fd, e);
                    capable = (c, ec, writable);
                    formatted = (f, ef, accepted);
                    timed = set_parameters-ok answers.s_parm held p';
                  }
            ]
      ]
]

Passes-set_parameters :
    (answers : List (Answer (Unit {0}))) (sink : V4l2Sink)
    → (repeated answers ≡ some (gives tt)) ⊎ (repeated answers ≡ some (fails_with enotty))
    → Succeeds (set_parameters answers sink)
unfolding set_parameters
Passes-set_parameters answers sink (inl e) = rw (e, set_parameters) (_, refl, refl)
Passes-set_parameters answers sink (inr e) = rw (e, set_parameters) (_, refl, refl)

formatted_stage :
    (width height : ℤ) (answers : OpenAnswers) (sink : V4l2Sink) (f : PixelFormat)
    → repeated answers.s_fmt ≡ some (gives f)
    → is_accepted_format width height f ≡ true
    → set_format width height answers sink ≡ set_parameters answers.s_parm sink
unfolding set_format
formatted_stage width height answers sink f e accepted = rw (e, set_format) (rw accepted refl)

capable_stage :
    (width height : ℤ) (answers : OpenAnswers) (sink : V4l2Sink) (c : Capability)
    → repeated answers.querycap ≡ some (gives c)
    → is_writable c ≡ true
    → query_capability width height answers sink ≡ set_format width height answers sink
unfolding query_capability
capable_stage width height answers sink c e writable = rw (e, query_capability) (rw writable refl)

opened_stage :
    (width height : ℤ) (answers : OpenAnswers) (sink : V4l2Sink) (fd : ℕ)
    → answers.opened ≡ gives fd
    → open_device width height answers sink
      ≡ query_capability width height answers
          (record { fd = some fd; open_files = fd ∷ (close sink).open_files })
unfolding open_device
opened_stage width height answers sink fd e = go answers.opened e
  where
    go :
        (o : Final ℕ)
        → o ≡ gives fd
        → elim o [
          | fails_with errno ↦ some (record { sink = close sink; error = some (cannot_open errno) })
          | gives d ↦
              query_capability width height answers
                (record { fd = some d; open_files = d ∷ (close sink).open_files })
        ]
          ≡ query_capability width height answers
              (record { fd = some fd; open_files = fd ∷ (close sink).open_files })
    go (fails_with errno) h = cc
    go (gives d) h =
        let same : d ≡ fd = cc in
        ap
          (λ n.
            query_capability width height answers
              (record { fd = some n; open_files = n ∷ (close sink).open_files }))
          same

Passes-open_device :
    (width height : ℤ) (answers : OpenAnswers) (sink : V4l2Sink)
    → Passes width height answers
    → Succeeds (open_device width height answers sink)
Passes-open_device width height answers sink a =
    let (fd, e) = a.descriptor in
    let (c, ec, writable) = a.capable in
    let (f, ef, accepted) = a.formatted in
    let held : V4l2Sink = record { fd = some fd; open_files = fd ∷ (close sink).open_files } in
    let reached =
      opened_stage width height answers sink fd e
      ∙ capable_stage width height answers held c ec writable
      ∙ formatted_stage width height answers held f ef accepted in
    subst Succeeds (sym reached) (Passes-set_parameters answers.s_parm held a.timed)

-- The last answer of a call, behind any number of interrupted ones.
pub data Answers {ℓ} {Given : Type ℓ} : Final Given → List (Answer Given) → Type ℓ where
  last_given : (g : Given) (later : List (Answer Given)) → Answers (gives g) (given g ∷ later)
  last_failed :
      (errno : ℕ) (later : List (Answer Given)) → Answers (fails_with errno) (failed errno ∷ later)
  again :
      (r : Final Given) (later : List (Answer Given))
      → Answers r later
      → Answers r (interrupted ∷ later)

repeated-Answers {ℓ} :
    {Given : Type ℓ} (answers : List (Answer Given)) (r : Final Given)
    → repeated answers ≡ some r
    → Answers r answers
unfolding repeated
repeated-Answers [] r h = cc
repeated-Answers (interrupted ∷ later) r h = again r later (repeated-Answers later r h)
repeated-Answers (failed errno ∷ later) r h =
    subst (λ r. Answers r (failed errno ∷ later)) (Option-injective h) (last_failed errno later)
repeated-Answers (given g ∷ later) r h =
    subst (λ r. Answers r (given g ∷ later)) (Option-injective h) (last_given g later)

Answers-repeated {ℓ} :
    {Given : Type ℓ} (answers : List (Answer Given)) (r : Final Given)
    → Answers r answers
    → repeated answers ≡ some r
unfolding repeated
Answers-repeated _ r (last_given g later) = refl
Answers-repeated _ r (last_failed errno later) = refl
Answers-repeated _ r (again r' later a) = Answers-repeated later r a

-- A bit of a number.
abbrev pub HasBit : ℕ → ℕ → Type 0
HasBit flags bit = flags / 2 ^ bit % 2 ≡ 1

-- A video output (bit 1) that can be read and written (bit 24).
abbrev pub IsOutput : ℕ → Type 0
IsOutput flags = HasBit flags 1 × HasBit flags 24

-- The flags of the opened node, which it gives apart when bit 31 is set among those of the whole device.
abbrev pub CanWrite : Capability → Type 0
CanWrite c =
    (HasBit c.capabilities 31 × IsOutput c.device_caps)
    ⊎ ((¬ HasBit c.capabilities 31) × IsOutput c.capabilities)

is_writable_iff : (c : Capability) → (is_writable c ≡ true) ↔ CanWrite c
unfolding is_writable
is_writable_iff c = ground arith

-- A 32-bit number as a signed one.
abbrev pub IsSigned : ℕ → ℤ → Type 0
IsSigned n (pos m) = (n < 2 ^ 31) × (n ≡ m)
IsSigned n (negsuc m) = (2 ^ 31 ≤ n) × (m ≡ 2 ^ 32 - 1 - n)

to_int_iff : (n : ℕ) (z : ℤ) → (to_int n ≡ z) ↔ IsSigned n z
unfolding to_int
to_int_iff n (pos m) = ground arith
to_int_iff n (negsuc m) = ground arith

-- The text MJPG as a number, and the size.
abbrev pub IsMjpegOf : ℤ → ℤ → PixelFormat → Type 0
IsMjpegOf width height f =
    (f.pixelformat ≡ 0x47504a4d) × IsSigned f.width width × IsSigned f.height height

is_accepted_format_iff :
    (width height : ℤ) (f : PixelFormat)
    → (is_accepted_format width height f ≡ true) ↔ IsMjpegOf width height f
unfolding is_accepted_format
is_accepted_format_iff width height f = ground (
  arith,
  ==ℤ_iff (to_int f.width) width,
  ==ℤ_iff (to_int f.height) height,
  to_int_iff f.width width,
  to_int_iff f.height height,
)

-- What the driver must answer for an opening to succeed; a driver without frame intervals (`ENOTTY`)
-- is accepted.
pub record Accepts (width height : ℤ) (answers : OpenAnswers) : Type 0 where
  pub descriptor : (fd : ℕ) × (answers.opened ≡ gives fd)
  pub capable : (c : Capability) × Answers (gives c) answers.querycap × CanWrite c
  pub formatted : (f : PixelFormat) × Answers (gives f) answers.s_fmt × IsMjpegOf width height f
  pub timed : Answers (gives tt) answers.s_parm ⊎ Answers (fails_with 25) answers.s_parm

Passes-Accepts :
    (width height : ℤ) (answers : OpenAnswers)
    → Passes width height answers
    → Accepts width height answers
Passes-Accepts width height answers p =
    let (c, ec, writable) = p.capable in
    let (f, ef, accepted) = p.formatted in
    record {
      descriptor = p.descriptor;
      capable = (c, repeated-Answers answers.querycap _ ec, (is_writable_iff c).0 writable);
      formatted = (
        f,
        repeated-Answers answers.s_fmt _ ef,
        (is_accepted_format_iff width height f).0 accepted,
      );
      timed = elim p.timed [
        | inl e ↦ inl (repeated-Answers answers.s_parm _ e)
        | inr e ↦ inr (repeated-Answers answers.s_parm _ e)
      ];
    }

Accepts-Passes :
    (width height : ℤ) (answers : OpenAnswers)
    → Accepts width height answers
    → Passes width height answers
Accepts-Passes width height answers a =
    let (c, ec, writable) = a.capable in
    let (f, ef, accepted) = a.formatted in
    record {
      descriptor = a.descriptor;
      capable = (c, Answers-repeated answers.querycap _ ec, (is_writable_iff c).1 writable);
      formatted = (
        f,
        Answers-repeated answers.s_fmt _ ef,
        (is_accepted_format_iff width height f).1 accepted,
      );
      timed = elim a.timed [
        | inl e ↦ inl (Answers-repeated answers.s_parm _ e)
        | inr e ↦ inr (Answers-repeated answers.s_parm _ e)
      ];
    }

-- `Open` succeeds exactly when the device opens, says that it is a video output that can be written,
-- takes MJPEG of the requested size unchanged, and takes the frame interval or has no such setting;
-- calls that are interrupted are made again.
pub open_device_iff :
    (width height : ℤ) (answers : OpenAnswers) (sink : V4l2Sink)
    → ((result : OpenResult) × (open_device width height answers sink ≡ some result)
        × (result.error ≡ none))
      ↔ Accepts width height answers
open_device_iff width height answers sink = (
  λ s. Passes-Accepts width height answers (open_device-Passes width height answers sink s),
  λ a. Passes-open_device width height answers sink (Accepts-Passes width height answers a),
)
