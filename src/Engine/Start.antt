-- ===== src/Engine/Start.antt =====
-- `Engine::Start` and `Engine::Stop` on every path.
use vcames.Common.{
  ℕ, ◌≡◌, refl, subst, Bool, true, false, Option, none, some, List, [], ◌∷◌, ℤ, pos,
}
use vcames.Failure.{Result, err, ok}
use vcames.Config.{Config, validate}
use vcames.Config.Valid.{validate_iff}
use vcames.Engine.Placeholder.{IsBlack, placeholder-IsBlack}
use vcames.V4l2Sink.{OpenAnswers, OpenResult, OpenError, open_device}
use vcames.V4l2Sink.Open.{Owns, Owns-sink, close-Owns, IsOpened, open_device-IsOpened}
use vcames.Engine.{
  Engine, Started, StartError, bad_config, no_device, no_thread, stop_engine, begin, start_engine,
  ready, placeholder, started_status, SourceFrame,
}
use vcames.Engine.Writer.{Writer, taking}
use vcames.Engine.Session.Accounting.{IsFresh}

-- Nothing runs, and no device is open.
pub record IsStopped (others : List ℕ) (e : Engine) : Type 0 where
  pub not_running : e.status.running ≡ false
  pub asked_to_stop : e.stop_requested ≡ true
  pub no_frame : e.latest_frame ≡ none
  pub no_sink : e.sink ≡ record { fd = none; open_files = others }

-- The writer thread at its start.
abbrev pub new_writer : ℕ → Writer
new_writer now = record {
  phase = taking;
  output_jpeg = [];
  consumed_generation = 0;
  next_write = now;
}

-- A session can begin: the device is open, nothing asks the threads to stop, the frame to show first is
-- the placeholder, and nothing has come or gone yet.
pub record IsRunning (others : List ℕ) (config : Config) (e : Engine) : Type 0 where
  pub valid : validate config ≡ ok tt
  pub runs : e.status.running ≡ true
  pub configured : e.config ≡ config
  pub not_asked_to_stop : e.stop_requested ≡ false
  pub sink_ready : e.status.sink_open ≡ true
  pub not_connected : e.status.source_connected ≡ false
  pub no_error : e.status.error ≡ none
  pub no_size : (e.status.source_width ≡ pos 0) × (e.status.source_height ≡ pos 0)
  pub none_written : e.status.frames_written ≡ 0
  pub device : (fd : ℕ) × (e.sink ≡ record { fd = some fd; open_files = fd ∷ others })
  pub shows_placeholder :
      (frame : SourceFrame) × (e.latest_frame ≡ some frame)
      × IsBlack 1280 720 frame
      × (frame.presentation_time_ns ≡ e.status.last_frame_time)
      × (frame.arrival_time_ns ≡ e.status.last_frame_time)
  pub fresh : (now : ℕ) → IsFresh (record { engine = e; writer = new_writer now })

-- What a start leaves of the engine `e`, by its error.
abbrev pub StartLeaves : List ℕ → Config → Engine → Option StartError → Engine → Type 0
StartLeaves others config e none e' = IsRunning others config e'
StartLeaves others config e (some (bad_config why)) e' = (e' ≡ e) × (validate config ≡ err why)
StartLeaves others config e (some (no_device why)) e' = IsStopped others e'
StartLeaves others config e (some no_thread) e' = IsStopped others e'

pub stop_engine-IsStopped :
    (others : List ℕ) (e : Engine) → Owns others e.sink → IsStopped others (stop_engine e)
unfolding stop_engine
stop_engine-IsStopped others e o = record {
  not_running = refl;
  asked_to_stop = refl;
  no_frame = refl;
  no_sink = close-Owns others e.sink o;
}

abbrev Leaves : List ℕ → Config → Engine → Option Started → Type 0
Leaves others config e none = Unit
Leaves others config e (some r) = StartLeaves others config e r.error r.engine

starts-IsBlack :
    (now : ℤ) (config : Config)
    → validate config ≡ ok tt
    → IsBlack 1280 720 (placeholder now config.width config.height)
starts-IsBlack now config valid =
    let v = (validate_iff config).0 valid in
    rw (v.width_fixed, v.height_fixed) (placeholder-IsBlack now 1280 720)

begin-Leaves :
    (others : List ℕ) (now : ℤ) (config : Config) (threads_start : Bool) (e before : Engine)
    (fd : ℕ)
    → validate config ≡ ok tt
    → e.sink ≡ record { fd = some fd; open_files = fd ∷ others }
    → Leaves others config before (some (begin now config threads_start e))
unfolding begin started_status ready placeholder
begin-Leaves others now config true e before fd valid device = record {
  valid = valid;
  runs = refl;
  configured = refl;
  not_asked_to_stop = refl;
  sink_ready = refl;
  not_connected = refl;
  no_error = refl;
  no_size = (refl, refl);
  none_written = refl;
  device = (fd, device);
  shows_placeholder = (
    placeholder now config.width config.height,
    refl,
    starts-IsBlack now config valid,
    refl,
    refl,
  );
  fresh = λ time. record {
    none_received = refl;
    none_dropped = refl;
    first_generation = refl;
    first_frame = (placeholder now config.width config.height, refl);
    at_start = refl;
    none_consumed = refl;
  };
}
begin-Leaves others now config false e before fd valid device =
    stop_engine-IsStopped others (ready now config e) (record { accounted = rw device refl })

-- What follows the opening of the device.
opened-Leaves :
    (others : List ℕ) (now : ℤ) (config : Config) (answers : OpenAnswers) (threads_start : Bool)
    (before stopped : Engine) (o : Option OpenResult)
    → validate config ≡ ok tt
    → IsStopped others stopped
    → open_device config.width config.height answers stopped.sink ≡ o
    → Leaves others config before (elim o [
      | none ↦ none
      | some opened ↦ elim opened.error [
        | some why ↦ some (record {
          engine = record stopped { sink = opened.sink };
          error = some (no_device why);
        })
        | none ↦ some (begin now config threads_start (record stopped { sink = opened.sink }))
      ]
    ])
opened-Leaves others now config answers threads_start before stopped none valid so e = tt
opened-Leaves others now config answers threads_start before stopped (some opened) valid so e =
    by_error opened.error refl
  where
    is_opened : IsOpened others answers.opened opened
    is_opened =
        open_device-IsOpened others config.width config.height answers stopped.sink opened
          (rw so.no_sink (record { accounted = refl })) e

    by_error :
        (error : Option OpenError)
        → opened.error ≡ error
        → Leaves others config before (elim error [
          | some why ↦ some (record {
            engine = record stopped { sink = opened.sink };
            error = some (no_device why);
          })
          | none ↦ some (begin now config threads_start (record stopped { sink = opened.sink }))
        ])
    by_error none n =
        let (fd, held, _) = is_opened.open_if_ok n in
        begin-Leaves others now config threads_start _ before fd valid
          (Owns-sink others opened.sink (some fd) is_opened.owns held)
    by_error (some why) n = record {
      not_running = so.not_running;
      asked_to_stop = so.asked_to_stop;
      no_frame = so.no_frame;
      no_sink = Owns-sink others opened.sink none is_opened.owns (is_opened.closed_if_not why n);
    }

-- Whatever the device answers, `Start` leaves either a running engine with a valid configuration and an
-- open device, which is not asked to stop, has no error, no connected source and its counters at zero, and shows a
-- black frame of 1280 by 720; or, with an invalid
-- configuration, the engine as it was; or else a stopped engine without a device. No descriptor is lost.
pub start_engine-StartLeaves :
    (others : List ℕ) (now : ℤ) (config : Config) (answers : OpenAnswers) (threads_start : Bool)
    (e : Engine) (r : Started)
    → Owns others e.sink
    → start_engine now config answers threads_start e ≡ some r
    → StartLeaves others config e r.error r.engine
unfolding start_engine
start_engine-StartLeaves others now config answers threads_start e r o h =
    subst (Leaves others config e) h (by_config (validate config) refl)
  where
    by_config :
        (v : Result (Unit {0}))
        → validate config ≡ v
        → Leaves others config e (elim v [
          | err why ↦ some (record { engine = e; error = some (bad_config why) })
          | ok _ ↦ elim (open_device config.width config.height answers (stop_engine e).sink) [
            | none ↦ none
            | some opened ↦ elim opened.error [
              | some why ↦ some (record {
                engine = record (stop_engine e) { sink = opened.sink };
                error = some (no_device why);
              })
              | none ↦
                  some
                    (begin now config threads_start (record (stop_engine e) { sink = opened.sink }))
            ]
          ]
        ])
    by_config (err why) v = (refl, v)
    by_config (ok tt) v =
        opened-Leaves others now config answers threads_start e (stop_engine e) _ v
          (stop_engine-IsStopped others e o) refl
