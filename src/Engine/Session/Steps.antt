-- ===== src/Engine/Session/Steps.antt =====
-- The books of a session of daemon/src/engine.cpp, step by step.
use vcames.Common.{
  ℕ, ◌+◌, ◌^◌, ◌<◌, ◌≡◌, refl, sym, ap, subst, ◌∙◌, ◌⊎◌, inl, inr, Bool, true, false, not, ◌&&◌,
  ◌||◌, Option, none, some, List, arith, ltb, ◌==◌, if◌then◌else◌, ==_iff, Bool-cases, length,
  is_empty, ℤ, Bytes,
}
use vcames.V4l2Sink.{WriteError, Written, write_frame}
use vcames.Engine.{
  Engine, SourceFrame, publish_frame, stop_engine, max_frame_bytes, push_frame, push_nv21_frame,
  jpeg_frame, nv21_frame, accept_frame, refuse_frame, add_count, is_producer_active, is_valid_nv21,
}
use vcames.Engine.Writer.{
  ImageTransform, Picture, transform_frame, Phase, taking, output, finished, transforming, Writer,
  System, take_frame, taken_state, store_picture, no_transform, note_output, skipped, at_phase,
}
use vcames.Engine.Session.{
  Event, publish, push_jpeg, push_nv21, source_connected, source_ended, stream_failed, wake,
  transform, write, stop, connect, end_stream, transform_step, write_step, wake_step, step,
  on_engine,
}
use vcames.Engine.Session.Books.{
  claimed_in, claimed, History, count_if, is_refused, is_failure, fails_at, is_broken, Balanced,
  idle, published, refused_one, broken_one, took_one, Sound, recount, count_same, nv21_size_good,
}

abbrev bad_size : SourceFrame → Bool
bad_size frame = ltb (length frame.payload) 4 || ltb max_frame_bytes (length frame.payload)

module _ (images : ImageTransform) (k : ℕ) (h : History) (s : System) (small : k + 2 < 2 ^ 64)
    (sound : Sound k h s) where
  abbrev rc : ℕ
  rc = s.engine.status.frames_received

  abbrev g : ℕ
  g = s.engine.latest_generation

  abbrev d : ℕ
  d = s.engine.status.frames_dropped

  abbrev c : ℕ
  c = claimed s.writer

  accepted :
      (now : ℤ) (frame : SourceFrame) → Sound (k + 1) h (on_engine (accept_frame now frame) s)
  unfolding accept_frame
  accepted now frame = record {
    books = published k h rc g d c small sound.books;
    frame_there = inr (frame, refl);
  }

  refused_frame : Sound (k + 1) (record h { refused = h.refused + 1 }) (on_engine refuse_frame s)
  unfolding refuse_frame
  refused_frame = record {
    books = refused_one k h rc g d c small sound.books;
    frame_there = sound.frame_there;
  }

  unmoved : Sound (k + 1) h s
  unmoved = record { books = idle k h rc g d c small sound.books; frame_there = sound.frame_there }

  push_jpeg-Sound :
      (now : ℤ) (payload : Bytes)
      → Sound (k + 1) h (on_engine (λ e. (push_frame now payload e).engine) s)
  unfolding push_frame publish_frame
  push_jpeg-Sound now payload = elim (Bool-cases (is_producer_active s.engine)) [
    | inr idle_ ↦ rw idle_ unmoved
    | inl active ↦
        elim (Bool-cases (ltb (length payload) 4 || ltb max_frame_bytes (length payload))) [
          | inl bad ↦ rw active (rw bad unmoved)
          | inr good ↦ rw active (rw good (accepted now (jpeg_frame now payload)))
        ]
  ]

  push_nv21-Sound :
      (now : ℤ) (payload : Bytes) (width height time : ℤ)
      → Sound
          (k + 1)
          h
          (on_engine (λ e. (push_nv21_frame now payload width height time e).engine) s)
  unfolding push_nv21_frame publish_frame
  push_nv21-Sound now payload width height time = elim (Bool-cases (is_producer_active s.engine)) [
    | inr idle_ ↦ rw idle_ unmoved
    | inl active ↦ elim (Bool-cases (is_valid_nv21 width height (length payload))) [
      | inr bad ↦ rw active (rw bad unmoved)
      | inl good ↦ rw active (
          rw good (
            rw (nv21_size_good width height (length payload) good)
              (accepted now (nv21_frame now payload width height time))))
    ]
  ]

  -- A state behind the step, with the frame counted that the writer may have taken up.
  abbrev Moves : System → Type 0
  Moves s' =
      Sound (k + 1)
        (record h { taken = h.taken + count_if (not (claimed s'.writer == claimed s.writer)) }) s'

  moves_if :
      (t : Bool) (x y : System)
      → (t ≡ true → Moves x)
      → (t ≡ false → Moves y)
      → Moves (if t then x else y)
  moves_if true x y a b = a refl
  moves_if false x y a b = b refl

  -- A step of the writer that claims nothing new and leaves the engine as it is.
  with_writer : (w : Writer) → claimed w ≡ c → Moves (record s { writer = w })
  with_writer w e =
      recount (k + 1) h _ (record s { writer = w }) (rw e (omega (arith, count_same c))) refl refl
        (record {
          books = subst (Balanced (k + 1) h rc g d) (sym e) (idle k h rc g d c small sound.books);
          frame_there = sound.frame_there;
        })

  claimed_at : (p : Phase) → s.writer.phase ≡ p → c ≡ claimed_in p s.writer.consumed_generation
  claimed_at p e = ap (λ q. claimed_in q s.writer.consumed_generation) e

  took_books :
      (consumed claim : ℕ)
      → c ≡ consumed
      → claim ≡ g
      → Balanced
          (k + 1)
          (record h { taken = h.taken + count_if (not (claim == c)) })
          rc
          g
          (add_count d (skipped g consumed))
          claim
  took_books consumed claim e f = rw (← e) (rw f (took_one k h rc g d c small sound.books))

  took : s.writer.phase ≡ taking → s.engine.stop_requested ≡ false → Moves (taken_state s)
  unfolding taken_state
  took e going = elim sound.frame_there [
    | inl stopped ↦ cc
    | inr (frame, there) ↦ record {
      books =
          took_books s.writer.consumed_generation (claimed (taken_state s).writer)
            (claimed_at taking e)
            (ap (λ f. claimed_in (transforming f g) s.writer.consumed_generation) there);
      frame_there = inr (frame, there);
    }
  ]

  take_frame-Sound : (now : ℕ) → s.writer.phase ≡ taking → Moves (take_frame now s)
  unfolding take_frame
  take_frame-Sound now e =
      moves_if s.engine.stop_requested _ _
        (λ _. with_writer (at_phase finished s.writer) (sym (claimed_at taking e)))
        (λ going.
          moves_if (ltb now s.writer.next_write) _ _ (λ _. with_writer s.writer refl)
            (λ _. took e going))

  wake-Sound : (now : ℕ) (phase : Phase) → s.writer.phase ≡ phase → Moves (wake_step now phase s)
  unfolding wake_step
  wake-Sound now taking e = take_frame-Sound now e
  wake-Sound now output e = with_writer s.writer refl
  wake-Sound now finished e = with_writer s.writer refl
  wake-Sound now (transforming f n) e = with_writer s.writer refl

  -- A state behind a step, with all that is counted.
  abbrev pub Noted : ℕ → ℕ → System → Type 0
  Noted refused broken s' =
      Sound (k + 1)
        (record {
          taken = h.taken + count_if (not (claimed s'.writer == claimed s.writer));
          refused = h.refused + refused;
          broken = h.broken + broken;
        })
        s'

  Moves-Noted : (s' : System) → Moves s' → Noted 0 0 s'
  Moves-Noted s' m = recount (k + 1) _ _ s' refl (omega arith) (omega arith) m

  -- A step that leaves the claim as it is.
  keeps_claim :
      (h' : History) (refused broken : ℕ) (s' : System)
      → claimed s'.writer ≡ c
      → h'.taken ≡ h.taken
      → h'.refused ≡ h.refused + refused
      → h'.broken ≡ h.broken + broken
      → Sound (k + 1) h' s'
      → Noted refused broken s'
  keeps_claim h' refused broken s' e t r b so =
      recount (k + 1) h' _ s' (rw e (omega (arith, count_same c, t))) (sym r) (sym b) so

  store_picture-Noted :
      (generation : ℕ) (result : Picture ⊎ Bytes)
      → c ≡ generation
      → Noted 0 (count_if (is_failure (some result))) (store_picture result generation s)
  unfolding store_picture
  store_picture-Noted generation (inl p) e =
      keeps_claim h 0 0 _ (sym e) refl (omega arith) (omega arith) (record {
        books = rw (← e) (idle k h rc g d c small sound.books);
        frame_there = sound.frame_there;
      })
  store_picture-Noted generation (inr why) e =
      keeps_claim (record h { broken = h.broken + 1 }) 0 1 _ (sym e) refl (omega arith) refl
        (record {
          books = rw (← e) (broken_one k h rc g d c small sound.books);
          frame_there = sound.frame_there;
        })

  transformed :
      (same : Bool) (generation : ℕ) (o : Option (Picture ⊎ Bytes))
      → (same ≡ true → generation ≡ s.writer.consumed_generation)
      → c ≡ generation
      → Noted 0 (count_if (not same && is_failure o)) (
          if same
          then no_transform s
          else elim o [ none ↦ s | some result ↦ store_picture result generation s ])
  transformed true generation o same e =
      Moves-Noted _ (with_writer (at_phase output s.writer) (sym (same refl) ∙ sym e))
  transformed false generation none same e = Moves-Noted _ (with_writer s.writer refl)
  transformed false generation (some result) same e = store_picture-Noted generation result e

  transform-Noted :
      (phase : Phase)
      → s.writer.phase ≡ phase
      → Noted 0 (count_if (fails_at images phase s)) (transform_step images phase s)
  unfolding transform_step
  transform-Noted (transforming (some frame) generation) e =
      transformed (generation == s.writer.consumed_generation) generation
        (transform_frame images frame s.engine.config)
        (λ t. (==_iff generation s.writer.consumed_generation).0 t)
        (claimed_at (transforming (some frame) generation) e)
  transform-Noted (transforming none generation) e =
      Moves-Noted _
        (with_writer (at_phase output s.writer) (sym (claimed_at (transforming none generation) e)))
  transform-Noted taking e = Moves-Noted _ (with_writer s.writer refl)
  transform-Noted output e = Moves-Noted _ (with_writer s.writer refl)
  transform-Noted finished e = Moves-Noted _ (with_writer s.writer refl)

  noted_if : (t : Bool) (x y : System) → Noted 0 0 x → Noted 0 0 y → Noted 0 0 (if t then x else y)
  noted_if true x y a b = a
  noted_if false x y a b = b

  note_output-Noted :
      (now : ℕ) (error : Option WriteError)
      → s.writer.phase ≡ output
      → Noted 0 0 (note_output now error s)
  unfolding note_output
  note_output-Noted now (some why) e =
      keeps_claim h 0 0 _ (sym (claimed_at output e)) refl (omega arith) (omega arith) (record {
        books =
            subst (Balanced (k + 1) h rc g d) (claimed_at output e)
              (idle k h rc g d c small sound.books);
        frame_there = sound.frame_there;
      })
  note_output-Noted now none e =
      keeps_claim h 0 0 _ (sym (claimed_at output e)) refl (omega arith) (omega arith) (record {
        books =
            subst (Balanced (k + 1) h rc g d) (claimed_at output e)
              (idle k h rc g d c small sound.books);
        frame_there = sound.frame_there;
      })

  written :
      (now : ℕ) (o : Option (Option WriteError))
      → s.writer.phase ≡ output
      → Noted 0 0 (elim o [ none ↦ s | some error ↦ note_output now error s ])
  written now none e = Moves-Noted _ (with_writer s.writer refl)
  written now (some error) e = note_output-Noted now error e

  write-Noted :
      (now : ℕ) (answers : List Written) (phase : Phase)
      → s.writer.phase ≡ phase
      → Noted 0 0 (write_step now answers phase s)
  unfolding write_step
  write-Noted now answers output e =
      noted_if (is_empty s.writer.output_jpeg) _ _
        (Moves-Noted _ (with_writer _ (sym (claimed_at output e))))
        (written now (write_frame answers s.writer.output_jpeg s.engine.sink) e)
  write-Noted now answers taking e = Moves-Noted _ (with_writer s.writer refl)
  write-Noted now answers finished e = Moves-Noted _ (with_writer s.writer refl)
  write-Noted now answers (transforming f n) e = Moves-Noted _ (with_writer s.writer refl)

  -- A step of another thread that leaves the counters as they are.
  quiet :
      (e : Engine) → Sound (k + 1) h (record s { engine = e }) → Noted 0 0 (record s { engine = e })
  quiet e so = keeps_claim h 0 0 _ refl refl (omega arith) (omega arith) so

  publish-Noted :
      (now : ℤ) (frame : SourceFrame)
      → Noted (count_if (is_refused (publish now frame))) 0 (on_engine (publish_frame now frame) s)
  unfolding publish_frame
  publish-Noted now frame = by_size (is_refused (publish now frame))
    where
      by_size :
          (t : Bool)
          → Noted
              (count_if t)
              0
              (on_engine (λ e. if t then refuse_frame e else accept_frame now frame e) s)
      by_size true =
          keeps_claim (record h { refused = h.refused + 1 }) 1 0 _ refl refl refl (omega arith)
            refused_frame
      by_size false = quiet _ (accepted now frame)

  pub step-Noted :
      (event : Event)
      → Noted
          (count_if (is_refused event))
          (count_if (is_broken images event s))
          (step images event s)
  unfolding step connect end_stream stop_engine
  step-Noted (publish now frame) = publish-Noted now frame
  step-Noted (push_jpeg now payload) = quiet _ (push_jpeg-Sound now payload)
  step-Noted (push_nv21 now payload width height time) =
      quiet _ (push_nv21-Sound now payload width height time)
  step-Noted source_connected =
      quiet _
        (record { books = idle k h rc g d c small sound.books; frame_there = sound.frame_there })
  step-Noted source_ended =
      quiet _
        (record { books = idle k h rc g d c small sound.books; frame_there = sound.frame_there })
  step-Noted (stream_failed why) =
      quiet _
        (record { books = idle k h rc g d c small sound.books; frame_there = sound.frame_there })
  step-Noted (wake now) = Moves-Noted _ (wake-Sound now s.writer.phase refl)
  step-Noted transform = transform-Noted s.writer.phase refl
  step-Noted (write now answers) = write-Noted now answers s.writer.phase refl
  step-Noted stop =
      quiet _ (record { books = idle k h rc g d c small sound.books; frame_there = inl refl })
