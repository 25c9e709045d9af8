-- ===== src/Control/Safety.antt =====
-- `HandleControlClient` of daemon/src/main.cpp: who may change the engine, and what the client is told.
use vcames.Common.{
  ℕ, ◌≡◌, refl, ◌⊎◌, inl, inr, true, false, Option, none, some, List, [], Bool-cases, Bytes,
}
use vcames.Failure.{Error, Result, err, ok, message}
use vcames.Config.Command.{Command, Values, parse_command}
use vcames.V4l2Sink.Open.{Owns}
use vcames.Engine.{Engine, Problem, StartError}
use vcames.FrameSocket.{is_allowed_peer}
use vcames.Control.{
  Connection, Handled, read_request, failure, error_reply, too_large, permission_denied,
  handle_command, handle_request, handle_control_client,
}
use vcames.Control.Waited.{KeepsSink}
use vcames.Control.Replies.{CommandLeaves, handle_command-CommandLeaves, CommandLeaves-Owns}

module _ (start_text : StartError → Bytes) (problem_text : Problem → Bytes)
    (iteration_order : Values → Values) where
  -- A request from an allowed client that was read whole and parsed.
  pub record IsAuthorised (c : Connection) (command : Command) : Type 0 where
    pub allowed : is_allowed_peer c.credentials c.extra_allowed_uid ≡ true
    pub request : Bytes
    pub read_whole : read_request c.reads [] ≡ some request
    pub parsed : parse_command iteration_order true request ≡ ok command

  -- Why a client is refused, with the reply.
  pub data Refusal (c : Connection) (reply : Bytes) : Type 0 where
    denied :
        is_allowed_peer c.credentials c.extra_allowed_uid ≡ false
        → reply ≡ permission_denied
        → Refusal c reply
    not_read : read_request c.reads [] ≡ none → reply ≡ too_large → Refusal c reply
    not_parsed :
        (request : Bytes) (why : Error)
        → read_request c.reads [] ≡ some request
        → parse_command iteration_order true request ≡ err why
        → reply ≡ error_reply (message why)
        → Refusal c reply

  -- A refused client leaves the engine as it was; a command is an authorised one, and leaves what it promises.
  abbrev pub Served : List ℕ → Connection → Engine → Handled → Type 0
  Served others c e r =
      ((r.engine ≡ e) × Refusal c r.reply)
      ⊎ ((command : Command) × IsAuthorised c command
          × CommandLeaves start_text problem_text others c e command r)

  module _ (others : List ℕ) (c : Connection) (e : Engine)
      (keeps : KeepsSink others c.start_answers)
      (placeholder_keeps : KeepsSink others c.placeholder_answers) (o : Owns others e.sink) where
    handle_request-Served :
        (request : Option Bytes) (r : Handled)
        → is_allowed_peer c.credentials c.extra_allowed_uid ≡ true
        → read_request c.reads [] ≡ request
        → handle_request start_text problem_text iteration_order c request e ≡ some r
        → Served others c e r
    unfolding handle_request
    handle_request-Served none r allowed whole h =
        let same : record { engine = e; reply = too_large } ≡ r = cc h in
        rw (← same) (inl (refl, not_read whole refl))
    handle_request-Served (some request) r allowed whole h = by_command _ refl h
      where
        by_command :
            (p : Result Command)
            → parse_command iteration_order true request ≡ p
            → elim p [
              | err why ↦ some (failure (message why) e)
              | ok command ↦ handle_command start_text problem_text c command e
            ]
              ≡ some r
            → Served others c e r
        by_command (err why) is g =
            let same : failure (message why) e ≡ r = cc g in
            rw (← same) (inl (refl, not_parsed request why whole is refl))
        by_command (ok command) is g = inr (
          command,
          record { allowed = allowed; request = request; read_whole = whole; parsed = is },
          handle_command-CommandLeaves start_text problem_text others c keeps placeholder_keeps
              command e r o g,
        )

    -- A client of an engine whose sink keeps account of its descriptor, whatever the kernel answers and
    -- whatever the threads do while it waits, as long as they leave the descriptors alone. Either the
    -- client was refused, because it is not allowed, its request is too long or it is no command, it was
    -- told so, and the engine is as it was; or the client is allowed, its whole request is a command, and
    -- that was done. STATUS changes nothing. STOP leaves a stopped engine; when the daemon keeps the
    -- camera, it leaves a placeholder that has written a frame, or, with an error, a stopped engine.
    -- START leaves a session of the given configuration that has written a frame; else, with an error, a
    -- stopped engine or a session that has written no frame, or, when the daemon keeps the camera, a
    -- stopped engine or a placeholder that has written a frame. The reply without an error is the status
    -- of that engine.
    pub handle_control_client-Served :
        (r : Handled)
        → handle_control_client start_text problem_text iteration_order c e ≡ some r
        → Served others c e r
    unfolding handle_control_client
    handle_control_client-Served r h =
        elim (Bool-cases (is_allowed_peer c.credentials c.extra_allowed_uid)) [
          | inl allowed ↦
              handle_request-Served (read_request c.reads []) r allowed refl
                (rw (handle_control_client, allowed) at h)
          | inr not_allowed ↦
              let same : record { engine = e; reply = permission_denied } ≡ r =
                cc (rw (handle_control_client, not_allowed) at h) in
              rw (← same) (inl (refl, denied not_allowed refl))
        ]

    Served-Owns : (r : Handled) → Served others c e r → Owns others r.engine.sink
    Served-Owns r (inl (same, _)) = rw same o
    Served-Owns r (inr (command, _, leaves)) =
        CommandLeaves-Owns start_text problem_text others c keeps placeholder_keeps command e r o
          leaves

  handle_control_client-Owns :
      (others : List ℕ) (c : Connection) (e : Engine) (r : Handled)
      → KeepsSink others c.start_answers
      → KeepsSink others c.placeholder_answers
      → Owns others e.sink
      → handle_control_client start_text problem_text iteration_order c e ≡ some r
      → Owns others r.engine.sink
  handle_control_client-Owns others c e r keeps placeholder_keeps o h =
      Served-Owns others c e keeps placeholder_keeps o r
        (handle_control_client-Served others c e keeps placeholder_keeps o r h)
