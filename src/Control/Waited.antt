-- ===== src/Control/Waited.antt =====
-- A start of daemon/src/engine.cpp and the wait for its first frame, as daemon/src/main.cpp calls them.
use vcames.Common.{
  ℕ, ◌<◌, ◌≡◌, refl, sym, subst, inl, inr, Option, none, some, List, arith, ltb, ltb→lt, Bool-cases,
  Option-cases, any, ◌==ℤ◌, bytes, equal, starts_with,
}
use vcames.Config.{
  Config, validate, is_push_url, is_safe_protocol_value, contains_control_character,
  is_fixed_output, is_right_angle,
}
use vcames.Failure.{ok}
use vcames.V4l2Sink.Open.{Owns}
use vcames.Engine.{Engine, StartError, bad_config, no_device, no_thread, start_engine}
use vcames.Engine.Start.{
  IsStopped, IsRunning, StartLeaves, stop_engine-IsStopped, start_engine-StartLeaves,
}
use vcames.Engine.Status.{NoFrame, wait_for_first_frame_written}
use vcames.Control.{
  StartAnswers, StartProblem, not_started, no_first_frame, StartResult, wait_started,
  first_frame_result, start_and_wait, placeholder_config, end_placeholder, start_global_placeholder,
}

-- The threads open and close no descriptor.
abbrev pub KeepsSink : List ℕ → StartAnswers → Type 0
KeepsSink others answers =
    (e : Engine) → Owns others e.sink → Owns others (answers.meanwhile e).sink

-- A session has begun, and the threads have gone on from there.
pub record IsBegun (others : List ℕ) (config : Config) (answers : StartAnswers) (engine : Engine)
    : Type 0 where
  pub before : Engine
  pub running : IsRunning others config before
  pub went_on : engine ≡ answers.meanwhile before

abbrev pub Streams : List ℕ → Config → StartAnswers → Engine → Type 0
Streams others config answers engine =
    IsBegun others config answers engine × (0 < engine.status.frames_written)

abbrev pub Late : List ℕ → Config → StartAnswers → Engine → Type 0
Late others config answers engine =
    IsBegun others config answers engine × (engine.status.frames_written ≡ 0)

-- What a start with its wait leaves of the engine `e`, by its problem.
abbrev pub WaitLeaves :
    List ℕ → Config → StartAnswers → Engine → Option StartProblem → Engine → Type 0
WaitLeaves others config answers e none e' = Streams others config answers e'
WaitLeaves others config answers e (some (not_started why)) e' =
    StartLeaves others config e (some why) e'
WaitLeaves others config answers e (some (no_first_frame why)) e' = Late others config answers e'

WaitedFor : List ℕ → Config → StartAnswers → Engine → StartResult → Type 0
WaitedFor others config answers e r = WaitLeaves others config answers e r.problem r.engine

no_frame :
    (e : Engine) (why : NoFrame)
    → wait_for_first_frame_written e.status ≡ some why
    → e.status.frames_written ≡ 0
unfolding wait_for_first_frame_written
no_frame e why h = elim (Bool-cases (ltb 0 e.status.frames_written)) [
  | inl written ↦ cc (rw (wait_for_first_frame_written, written) at h)
  | inr none_written ↦ ground arith
]

a_frame : (e : Engine) → wait_for_first_frame_written e.status ≡ none → 0 < e.status.frames_written
unfolding wait_for_first_frame_written
a_frame e h = elim (Bool-cases (ltb 0 e.status.frames_written)) [
  | inl written ↦ ltb→lt 0 e.status.frames_written written
  | inr none_written ↦ elim (Option-cases e.status.error) [
    | inl no_error ↦ cc (rw (wait_for_first_frame_written, none_written, no_error) at h)
    | inr (why, is) ↦ cc (rw (wait_for_first_frame_written, none_written, is) at h)
  ]
]

first_frame_result-WaitedFor :
    (others : List ℕ) (config : Config) (answers : StartAnswers) (e e' : Engine)
    (o : Option NoFrame)
    → IsBegun others config answers e'
    → wait_for_first_frame_written e'.status ≡ o
    → WaitedFor others config answers e (first_frame_result e' o)
unfolding first_frame_result WaitedFor
first_frame_result-WaitedFor others config answers e e' none begun w = (begun, a_frame e' w)
first_frame_result-WaitedFor others config answers e e' (some why) begun w =
    (begun, no_frame e' why w)

wait_started-WaitedFor :
    (others : List ℕ) (config : Config) (answers : StartAnswers) (e e' : Engine)
    (error : Option StartError)
    → StartLeaves others config e error e'
    → WaitedFor others config answers e (wait_started answers.meanwhile error e')
unfolding wait_started WaitedFor
wait_started-WaitedFor others config answers e e' (some why) l = l
wait_started-WaitedFor others config answers e e' none l =
    first_frame_result-WaitedFor others config answers e (answers.meanwhile e') _
      (record { before = e'; running = l; went_on = refl }) refl

pub start_and_wait-WaitLeaves :
    (others : List ℕ) (config : Config) (answers : StartAnswers) (e : Engine) (r : StartResult)
    → Owns others e.sink
    → start_and_wait config answers e ≡ some r
    → WaitLeaves others config answers e r.problem r.engine
unfolding start_and_wait WaitedFor
start_and_wait-WaitLeaves others config answers e r o h =
    elim (Option-cases (start_engine answers.now config answers.opened answers.threads_start e)) [
      | inl missing ↦ cc (rw (start_and_wait, missing) at h)
      | inr (s, is) ↦
          let same : wait_started answers.meanwhile s.error s.engine ≡ r =
            cc (rw (start_and_wait, is) at h) in
          subst (WaitedFor others config answers e) same (
            wait_started-WaitedFor others config answers e s.engine s.error (
              start_engine-StartLeaves others answers.now config answers.opened
                answers.threads_start e s o is))
    ]

pub IsRunning-Owns :
    (others : List ℕ) (config : Config) (e : Engine)
    → IsRunning others config e
    → Owns others e.sink
IsRunning-Owns others config e r = let (fd, is) = r.device in rw is (record { accounted = refl })

pub IsStopped-Owns : (others : List ℕ) (e : Engine) → IsStopped others e → Owns others e.sink
IsStopped-Owns others e r = rw r.no_sink (record { accounted = refl })

pub IsBegun-Owns :
    (others : List ℕ) (config : Config) (answers : StartAnswers) (e : Engine)
    → KeepsSink others answers
    → IsBegun others config answers e
    → Owns others e.sink
IsBegun-Owns others config answers e keeps b =
    subst (λ e. Owns others e.sink) (sym b.went_on)
      (keeps b.before (IsRunning-Owns others config b.before b.running))

-- What the placeholder leaves, by its problem.
abbrev pub PlaceholderLeaves : List ℕ → StartAnswers → Option StartProblem → Engine → Type 0
PlaceholderLeaves others answers none e = Streams others placeholder_config answers e
PlaceholderLeaves others answers (some why) e = IsStopped others e

placeholder_valid : validate placeholder_config ≡ ok tt
unfolding validate is_push_url equal bytes starts_with is_safe_protocol_value
    contains_control_character any is_fixed_output ◌==ℤ◌ is_right_angle
placeholder_valid = refl

end_placeholder-Leaves :
    (others : List ℕ) (answers : StartAnswers) (e e' : Engine) (problem : Option StartProblem)
    → KeepsSink others answers
    → WaitLeaves others placeholder_config answers e problem e'
    → PlaceholderLeaves others answers
        (end_placeholder problem e').problem
        (end_placeholder problem e').engine
unfolding end_placeholder
end_placeholder-Leaves others answers e e' none keeps l = l
end_placeholder-Leaves others answers e e' (some (not_started (bad_config why))) keeps l =
    cc (placeholder_valid, l.1)
end_placeholder-Leaves others answers e e' (some (not_started (no_device why))) keeps l = l
end_placeholder-Leaves others answers e e' (some (not_started no_thread)) keeps l = l
end_placeholder-Leaves others answers e e' (some (no_first_frame why)) keeps l =
    stop_engine-IsStopped others e' (IsBegun-Owns others placeholder_config answers e' keeps l.0)

pub start_global_placeholder-Leaves :
    (others : List ℕ) (answers : StartAnswers) (e : Engine) (r : StartResult)
    → KeepsSink others answers
    → Owns others e.sink
    → start_global_placeholder answers e ≡ some r
    → PlaceholderLeaves others answers r.problem r.engine
unfolding start_global_placeholder
start_global_placeholder-Leaves others answers e r keeps o h =
    elim (Option-cases (start_and_wait placeholder_config answers e)) [
      | inl missing ↦ cc (rw (start_global_placeholder, missing) at h)
      | inr (s, is) ↦
          let same : end_placeholder s.problem s.engine ≡ r =
            cc (rw (start_global_placeholder, is) at h) in
          subst (λ r. PlaceholderLeaves others answers r.problem r.engine) same
            (end_placeholder-Leaves others answers e s.engine s.problem keeps
              (start_and_wait-WaitLeaves others placeholder_config answers e s o is))
    ]
