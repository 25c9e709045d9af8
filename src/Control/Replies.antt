-- ===== src/Control/Replies.antt =====
-- The commands of the control socket of daemon/src/main.cpp: the reply to each, and the engine behind it.
use vcames.Common.{
  ℕ, ◌≡◌, refl, sym, subst, ◌⊎◌, inl, inr, Bool, true, false, Option, none, some, List,
  Option-cases, Bytes,
}
use vcames.Config.{Config}
use vcames.Config.Command.{Command, start, stop, status}
use vcames.V4l2Sink.Open.{Owns}
use vcames.Engine.{Engine, Problem, StartError, bad_config, no_device, no_thread, stop_engine}
use vcames.Engine.Start.{IsStopped, stop_engine-IsStopped}
use vcames.Control.{
  StartAnswers, StartProblem, not_started, no_first_frame, start_and_wait, start_global_placeholder,
  placeholder_config, Connection, Handled, problem_message, error_reply, status_reply, failure,
  start_failed, handle_start, handle_stop, handle_command,
}
use vcames.Control.Waited.{
  KeepsSink, Streams, Late, WaitLeaves, PlaceholderLeaves, start_and_wait-WaitLeaves,
  start_global_placeholder-Leaves, IsStopped-Owns, IsBegun-Owns,
}

-- A start has failed: nothing runs, or a session has written no frame in time.
abbrev pub Failed : List ℕ → Config → StartAnswers → Engine → Type 0
Failed others config answers e = IsStopped others e ⊎ Late others config answers e

-- The placeholder runs, or nothing.
abbrev pub PlaceholderOr : List ℕ → StartAnswers → Engine → Type 0
PlaceholderOr others answers e = Streams others placeholder_config answers e ⊎ IsStopped others e

abbrev pub StartFailed : Bool → List ℕ → Config → Connection → Engine → Type 0
StartFailed false others config c e = Failed others config c.start_answers e
StartFailed true others config c e = PlaceholderOr others c.placeholder_answers e

abbrev pub started_config : Connection → Config → Config
started_config c config = record config { ffmpeg_path = c.ffmpeg_path }

module _ (start_text : StartError → Bytes) (problem_text : Problem → Bytes) where
  abbrev pub ShowsStatus : Connection → Handled → Type 0
  ShowsStatus c r = r.reply ≡ (status_reply start_text problem_text c r.engine).reply

  abbrev pub ShowsProblem : Handled → Type 0
  ShowsProblem r =
      (why : StartProblem) × (r.reply ≡ error_reply (problem_message start_text problem_text why))

  abbrev pub StopLeaves : Bool → List ℕ → Connection → Handled → Type 0
  StopLeaves false others c r = IsStopped others r.engine × ShowsStatus c r
  StopLeaves true others c r =
      (Streams others placeholder_config c.placeholder_answers r.engine × ShowsStatus c r)
      ⊎ (IsStopped others r.engine × ShowsProblem r)

  -- What a command leaves of the engine `e`, with the reply.
  abbrev pub CommandLeaves : List ℕ → Connection → Engine → Command → Handled → Type 0
  CommandLeaves others c e status r = (r.engine ≡ e) × ShowsStatus c r
  CommandLeaves others c e stop r = StopLeaves c.prime_global_camera others c r
  CommandLeaves others c e (start config) r =
      (Streams others (started_config c config) c.start_answers r.engine × ShowsStatus c r)
      ⊎ (StartFailed c.prime_global_camera others (started_config c config) c r.engine
          × ShowsProblem r)

  module _ (others : List ℕ) (c : Connection) (keeps : KeepsSink others c.start_answers)
      (placeholder_keeps : KeepsSink others c.placeholder_answers) where
    start-Failed :
        (config : Config) (e e' : Engine) (why : StartProblem)
        → Owns others e.sink
        → WaitLeaves others config c.start_answers (stop_engine e) (some why) e'
        → Failed others config c.start_answers e'
    start-Failed config e e' (not_started (bad_config why)) o l =
        inl (subst (IsStopped others) (sym l.0) (stop_engine-IsStopped others e o))
    start-Failed config e e' (not_started (no_device why)) o l = inl l
    start-Failed config e e' (not_started no_thread) o l = inl l
    start-Failed config e e' (no_first_frame why) o l = inr l

    Failed-Owns :
        (config : Config) (e : Engine) → Failed others config c.start_answers e → Owns others e.sink
    Failed-Owns config e (inl stopped) = IsStopped-Owns others e stopped
    Failed-Owns config e (inr late) = IsBegun-Owns others config c.start_answers e keeps late.0

    placeholder_or :
        (e : Engine) (problem : Option StartProblem)
        → PlaceholderLeaves others c.placeholder_answers problem e
        → PlaceholderOr others c.placeholder_answers e
    placeholder_or e none l = inl l
    placeholder_or e (some why) l = inr l

    abbrev FailedBy : Config → Handled → Type 0
    FailedBy config r = StartFailed c.prime_global_camera others config c r.engine × ShowsProblem r

    start_failed-FailedBy :
        (config : Config) (why : StartProblem) (e : Engine) (r : Handled)
        → Failed others config c.start_answers e
        → start_failed start_text problem_text c why e ≡ some r
        → FailedBy config r
    unfolding start_failed
    start_failed-FailedBy config why e r f h = by_prime c.prime_global_camera h
      where
        by_prime :
            (t : Bool)
            → elim t [
              | false ↦ some (failure (problem_message start_text problem_text why) e)
              | true ↦ elim (start_global_placeholder c.placeholder_answers e) [
                | none ↦ none
                | some s ↦ some (failure (problem_message start_text problem_text why) s.engine)
              ]
            ]
              ≡ some r
            → StartFailed t others config c r.engine × ShowsProblem r
        by_prime false g =
            let same : failure (problem_message start_text problem_text why) e ≡ r = cc g in
            rw (← same) (f, (why, refl))
        by_prime true g = elim (Option-cases (start_global_placeholder c.placeholder_answers e)) [
          | inl missing ↦ cc (rw missing at g)
          | inr (s, is) ↦
              let same : failure (problem_message start_text problem_text why) s.engine ≡ r =
                cc (rw is at g) in
              let l =
                start_global_placeholder-Leaves others c.placeholder_answers e s placeholder_keeps
                  (Failed-Owns config e f) is in
              rw (← same) (placeholder_or s.engine s.problem l, (why, refl))
        ]

    StartReplied : Config → Handled → Type 0
    StartReplied config r =
        (Streams others config c.start_answers r.engine × ShowsStatus c r) ⊎ FailedBy config r

    replied_start :
        (config : Config) (e e' : Engine) (problem : Option StartProblem) (r : Handled)
        → Owns others e.sink
        → WaitLeaves others config c.start_answers (stop_engine e) problem e'
        → elim problem [
          | none ↦ some (status_reply start_text problem_text c e')
          | some why ↦ start_failed start_text problem_text c why e'
        ]
          ≡ some r
        → StartReplied config r
    unfolding StartReplied status_reply
    replied_start config e e' none r o l h =
        let same : status_reply start_text problem_text c e' ≡ r = cc h in
        inl (rw (← same) (l, refl))
    replied_start config e e' (some why) r o l h =
        inr (start_failed-FailedBy config why e' r (start-Failed config e e' why o l) h)

    handle_start-StartReplied :
        (config : Config) (e : Engine) (r : Handled)
        → Owns others e.sink
        → handle_start start_text problem_text c config e ≡ some r
        → StartReplied (started_config c config) r
    unfolding handle_start
    handle_start-StartReplied config e r o h =
        elim (Option-cases
          (start_and_wait (started_config c config) c.start_answers (stop_engine e))) [
            | inl missing ↦ cc (rw (handle_start, missing) at h)
            | inr (s, is) ↦
                replied_start (started_config c config) e s.engine s.problem r o
                  (start_and_wait-WaitLeaves others (started_config c config) c.start_answers
                    (stop_engine e) s
                    (IsStopped-Owns others (stop_engine e) (stop_engine-IsStopped others e o)) is)
                  (rw (handle_start, is) at h)
          ]

    handle_stop-StopLeaves :
        (e : Engine) (r : Handled)
        → Owns others e.sink
        → handle_stop start_text problem_text c e ≡ some r
        → StopLeaves c.prime_global_camera others c r
    unfolding handle_stop status_reply
    handle_stop-StopLeaves e r o h = by_prime c.prime_global_camera h
      where
        by_problem :
            (problem : Option StartProblem) (e' : Engine)
            → PlaceholderLeaves others c.placeholder_answers problem e'
            → elim problem [
              | none ↦ some (status_reply start_text problem_text c e')
              | some why ↦ some (failure (problem_message start_text problem_text why) e')
            ]
              ≡ some r
            → StopLeaves true others c r
        by_problem none e' l g =
            let same : status_reply start_text problem_text c e' ≡ r = cc g in
            inl (rw (← same) (l, refl))
        by_problem (some why) e' l g =
            let same : failure (problem_message start_text problem_text why) e' ≡ r = cc g in
            inr (rw (← same) (l, (why, refl)))

        by_prime :
            (t : Bool)
            → elim t [
              | false ↦ some (status_reply start_text problem_text c (stop_engine e))
              | true ↦ elim (start_global_placeholder c.placeholder_answers e) [
                | none ↦ none
                | some s ↦ elim s.problem [
                  | none ↦ some (status_reply start_text problem_text c s.engine)
                  | some why ↦ some (failure (problem_message start_text problem_text why) s.engine)
                ]
              ]
            ]
              ≡ some r
            → StopLeaves t others c r
        by_prime false g =
            let same : status_reply start_text problem_text c (stop_engine e) ≡ r = cc g in
            rw (← same) (stop_engine-IsStopped others e o, refl)
        by_prime true g = elim (Option-cases (start_global_placeholder c.placeholder_answers e)) [
          | inl missing ↦ cc (rw missing at g)
          | inr (s, is) ↦
              by_problem s.problem s.engine
                (start_global_placeholder-Leaves others c.placeholder_answers e s placeholder_keeps
                  o is)
                (rw is at g)
        ]

    pub handle_command-CommandLeaves :
        (command : Command) (e : Engine) (r : Handled)
        → Owns others e.sink
        → handle_command start_text problem_text c command e ≡ some r
        → CommandLeaves others c e command r
    unfolding handle_command status_reply StartReplied
    handle_command-CommandLeaves status e r o h =
        let same : status_reply start_text problem_text c e ≡ r = cc h in rw (← same) (refl, refl)
    handle_command-CommandLeaves stop e r o h = handle_stop-StopLeaves e r o h
    handle_command-CommandLeaves (start config) e r o h = handle_start-StartReplied config e r o h

    StopLeaves-Owns : (t : Bool) (r : Handled) → StopLeaves t others c r → Owns others r.engine.sink
    StopLeaves-Owns false r (stopped, _) = IsStopped-Owns others r.engine stopped
    StopLeaves-Owns true r (inl (streams, _)) =
        IsBegun-Owns others placeholder_config c.placeholder_answers r.engine placeholder_keeps
          streams.0
    StopLeaves-Owns true r (inr (stopped, _)) = IsStopped-Owns others r.engine stopped

    StartFailed-Owns :
        (t : Bool) (config : Config) (e : Engine)
        → StartFailed t others config c e
        → Owns others e.sink
    StartFailed-Owns false config e f = Failed-Owns config e f
    StartFailed-Owns true config e (inl streams) =
        IsBegun-Owns others placeholder_config c.placeholder_answers e placeholder_keeps streams.0
    StartFailed-Owns true config e (inr stopped) = IsStopped-Owns others e stopped

    pub CommandLeaves-Owns :
        (command : Command) (e : Engine) (r : Handled)
        → Owns others e.sink
        → CommandLeaves others c e command r
        → Owns others r.engine.sink
    CommandLeaves-Owns status e r o l = rw l.0 o
    CommandLeaves-Owns stop e r o l = StopLeaves-Owns c.prime_global_camera r l
    CommandLeaves-Owns (start config) e r o (inl (s, _)) =
        IsBegun-Owns others (started_config c config) c.start_answers r.engine keeps s.0
    CommandLeaves-Owns (start config) e r o (inr (f, _)) =
        StartFailed-Owns c.prime_global_camera (started_config c config) r.engine f
