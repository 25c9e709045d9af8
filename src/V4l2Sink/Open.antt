-- ===== src/V4l2Sink/Open.antt =====
-- `V4l2Sink::Open` and `Close` of daemon/src/v4l2_sink.cpp: the descriptors that they leave.
use vcames.Common.{
  ap, ◌∙◌, ℕ, ◌≡◌, refl, subst, ◌⊎◌, inl, inr, Bool, true, false, Option, none, some, List, [], ◌∷◌,
  ◌++◌, arith, ◌==◌, if◌then◌else◌, ℤ,
}
use vcames.V4l2Sink.{
  V4l2Sink, OpenAnswers, OpenError, OpenResult, Final, Answer, gives, fails_with, repeated, without,
  close, is_writable, is_accepted_format, set_parameters, set_format, query_capability, open_device,
  enotty, close_held, give_up, s_parm_failed, s_fmt_failed, querycap_failed, rejected_geometry,
  not_writable, cannot_open,
}

-- The sink holds its own descriptor, and the rest of the process the others.
abbrev pub held : Option ℕ → List ℕ
held none = []
held (some fd) = fd ∷ []

pub record Owns (others : List ℕ) (sink : V4l2Sink) : Type 0 where
  pub accounted : sink.open_files ≡ held sink.fd ++ others

pub without-head : (fd : ℕ) (files : List ℕ) → without fd (fd ∷ files) ≡ files
unfolding without
without-head fd files = ground arith

close_held-Owns :
    (others : List ℕ) (fd : Option ℕ) (files : List ℕ)
    → files ≡ held fd ++ others
    → close_held fd files ≡ record { fd = none; open_files = others }
unfolding close_held
close_held-Owns others none files h = rw h refl
close_held-Owns others (some fd) files h = rw h (rw (without-head fd others) refl)

-- Closing gives back the descriptor of the sink and no other.
pub close-Owns :
    (others : List ℕ) (sink : V4l2Sink)
    → Owns others sink
    → close sink ≡ record { fd = none; open_files = others }
unfolding close
close-Owns others sink o = close_held-Owns others sink.fd sink.open_files o.accounted

-- A sink is known by the descriptor that it holds.
pub Owns-sink :
    (others : List ℕ) (sink : V4l2Sink) (fd : Option ℕ)
    → Owns others sink
    → sink.fd ≡ fd
    → sink ≡ record { fd = fd; open_files = held fd ++ others }
Owns-sink others sink fd o e =
    ap (λ files. record { fd = sink.fd; open_files = files }) o.accounted
    ∙ ap (λ f. record { fd = f; open_files = held f ++ others }) e

-- The sink holds a descriptor exactly when there is no error.
abbrev Holds : Option OpenError → Option ℕ → ℕ → Type 0
Holds none fd opened = fd ≡ some opened
Holds (some e) fd opened = fd ≡ none

abbrev Kept : List ℕ → ℕ → Option OpenResult → Type 0
Kept others opened none = Unit
Kept others opened (some r) = Owns others r.sink × Holds r.error r.sink.fd opened

module _ (others : List ℕ) (opened : ℕ) where
  abbrev fresh : V4l2Sink
  fresh = record { fd = some opened; open_files = opened ∷ others }

  give_up-Kept : (e : OpenError) → Kept others opened (give_up fresh e)
  give_up-Kept e =
      rw (close-Owns others fresh (record { accounted = refl })) (record { accounted = refl }, refl)

  Kept-if :
      (t : Bool) (x y : Option OpenResult)
      → Kept others opened x
      → Kept others opened y
      → Kept others opened (if t then x else y)
  Kept-if true x y a b = a
  Kept-if false x y a b = b

  succeeded : Kept others opened (some (record { sink = fresh; error = none }))
  succeeded = (record { accounted = refl }, refl)

  -- One call, whatever it comes to.
  Kept-call {ℓ} :
      {Given : Type ℓ} (o : Option (Final Given)) (on_error : ℕ → Option OpenResult)
      (next : Given → Option OpenResult)
      → ((errno : ℕ) → Kept others opened (on_error errno))
      → ((g : Given) → Kept others opened (next g))
      → Kept others opened (elim o [
        | none ↦ none
        | some (fails_with errno) ↦ on_error errno
        | some (gives g) ↦ next g
      ])
  Kept-call none on_error next a b = tt
  Kept-call (some (fails_with errno)) on_error next a b = a errno
  Kept-call (some (gives g)) on_error next a b = b g

  set_parameters-Kept :
      (answers : List (Answer (Unit {0}))) → Kept others opened (set_parameters answers fresh)
  unfolding set_parameters
  set_parameters-Kept answers =
      Kept-call (repeated answers) _ _
        (λ errno. Kept-if (errno == enotty) _ _ succeeded (give_up-Kept (s_parm_failed errno)))
        (λ _. succeeded)

  set_format-Kept :
      (width height : ℤ) (answers : OpenAnswers)
      → Kept others opened (set_format width height answers fresh)
  unfolding set_format
  set_format-Kept width height answers =
      Kept-call (repeated answers.s_fmt) _ _ (λ errno. give_up-Kept (s_fmt_failed errno))
        (λ f.
          Kept-if (is_accepted_format width height f) _ _ (set_parameters-Kept answers.s_parm)
            (give_up-Kept rejected_geometry))

  query_capability-Kept :
      (width height : ℤ) (answers : OpenAnswers)
      → Kept others opened (query_capability width height answers fresh)
  unfolding query_capability
  query_capability-Kept width height answers =
      Kept-call (repeated answers.querycap) _ _ (λ errno. give_up-Kept (querycap_failed errno))
        (λ c.
          Kept-if (is_writable c) _ _ (set_format-Kept width height answers)
            (give_up-Kept not_writable))

-- What an opening leaves.
pub record IsOpened (others : List ℕ) (opened : Final ℕ) (result : OpenResult) : Type 0 where
  pub owns : Owns others result.sink
  pub open_if_ok : result.error ≡ none → (fd : ℕ) × (result.sink.fd ≡ some fd) × (opened ≡ gives fd)
  pub closed_if_not : (e : OpenError) → result.error ≡ some e → result.sink.fd ≡ none

pub Option-injective {ℓ} : {A : Type ℓ} {x y : A} → some x ≡ some y → x ≡ y
Option-injective h = cc

pub Final-cases {ℓ} :
    {Given : Type ℓ} (f : Final Given)
    → ((errno : ℕ) × (f ≡ fails_with errno)) ⊎ ((g : Given) × (f ≡ gives g))
Final-cases (fails_with errno) = inl (errno, refl)
Final-cases (gives g) = inr (g, refl)

Holds-none :
    (e : Option OpenError) (fd : Option ℕ) (opened : ℕ)
    → Holds e fd opened
    → e ≡ none
    → fd ≡ some opened
Holds-none none fd opened h n = h
Holds-none (some e) fd opened h n = cc

Holds-some :
    (e : Option OpenError) (fd : Option ℕ) (opened : ℕ) (why : OpenError)
    → Holds e fd opened
    → e ≡ some why
    → fd ≡ none
Holds-some none fd opened why h n = cc
Holds-some (some e) fd opened why h n = h

Kept-split :
    (others : List ℕ) (fd : ℕ) (o : Option OpenResult) (result : OpenResult)
    → Kept others fd o
    → o ≡ some result
    → Owns others result.sink × Holds result.error result.sink.fd fd
Kept-split others fd o result k e = subst (Kept others fd) e k

-- Whatever the kernel answers: when `Open` returns, the process has the descriptors that it had, less
-- the sink's old one, and one more exactly if there is no error; the sink then holds it, and none
-- otherwise.
pub open_device-IsOpened :
    (others : List ℕ) (width height : ℤ) (answers : OpenAnswers) (sink : V4l2Sink)
    (result : OpenResult)
    → Owns others sink
    → open_device width height answers sink ≡ some result
    → IsOpened others answers.opened result
unfolding open_device
open_device-IsOpened others width height answers sink result o h =
    elim (Final-cases answers.opened) [
      | inl (errno, e) ↦
          let is_result : record { sink = close sink; error = some (cannot_open errno) } ≡ result =
            Option-injective (rw e at h) in
          let closed = close-Owns others sink o in
          rw (← is_result) (
            rw closed (record {
              owns = record { accounted = refl };
              open_if_ok = λ n. cc;
              closed_if_not = λ why n. refl;
            }))
      | inr (fd, e) ↦
          let closed = close-Owns others sink o in
          let reached : query_capability width height answers (fresh others fd) ≡ some result =
            rw closed at (rw e at h) in
          let (owns, holds) =
            Kept-split others fd (query_capability width height answers (fresh others fd)) result
              (query_capability-Kept others fd width height answers) reached in
          record {
            owns = owns;
            open_if_ok = λ n. (fd, Holds-none result.error result.sink.fd fd holds n, e);
            closed_if_not = λ why n. Holds-some result.error result.sink.fd fd why holds n;
          }
    ]
