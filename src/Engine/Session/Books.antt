-- ===== src/Engine/Session/Books.antt =====
-- The books of a session: what it has seen of the frames, and how the counters of the status relate to it.
use vcames.Common.{
  ℕ, suc, ◌+◌, ◌-◌, ◌*◌, ◌/◌, ◌^◌, ◌≤◌, ◌<◌, ◌≡◌, ◌⊎◌, inr, Bool, true, false, not, ◌&&◌, ◌||◌,
  Option, some, List, [], ◌∷◌, arith, ltb, ◌==◌, length, ℤ, pos, Bytes,
}
use vcames.Engine.{SourceFrame, max_frame_bytes, is_nv21_size, add_count, is_valid_nv21}
use vcames.Engine.Writer.{
  ImageTransform, Picture, transform_frame, Phase, transforming, Writer, System, skipped,
}
use vcames.Engine.Session.{Event, publish, transform, step}

-- The generation that the writer last laid hands on.
abbrev pub claimed_in : Phase → ℕ → ℕ
claimed_in (transforming (some frame) generation) consumed = generation
claimed_in _ consumed = consumed

abbrev pub claimed : Writer → ℕ
claimed w = claimed_in w.phase w.consumed_generation

-- What a session has seen: frames that the writer took up, frames of a bad size that `PublishFrame`
-- refused, and frames that could not be transformed.
pub record History : Type 0 where
  pub taken : ℕ
  pub refused : ℕ
  pub broken : ℕ

abbrev pub count_if : Bool → ℕ
count_if true = 1
count_if false = 0

abbrev pub is_refused : Event → Bool
is_refused (publish now frame) =
    ltb (length frame.payload) 4 || ltb max_frame_bytes (length frame.payload)
is_refused _ = false

abbrev pub is_failure : Option (Picture ⊎ Bytes) → Bool
is_failure (some (inr why)) = true
is_failure _ = false

abbrev pub fails_at : ImageTransform → Phase → System → Bool
fails_at images (transforming (some frame) generation) s =
    not (generation == s.writer.consumed_generation)
    && is_failure (transform_frame images frame s.engine.config)
fails_at images _ s = false

abbrev pub is_broken : ImageTransform → Event → System → Bool
is_broken images transform s = fails_at images s.writer.phase s
is_broken images _ s = false

abbrev pub noted : ImageTransform → Event → System → History → History
noted images event s h = record {
  taken = h.taken + count_if (not (claimed (step images event s).writer == claimed s.writer));
  refused = h.refused + count_if (is_refused event);
  broken = h.broken + count_if (is_broken images event s);
}

unfoldable pub history : ImageTransform → List Event → System → History → History
history images [] s h = h
history images (event ∷ events) s h =
    history images events (step images event s) (noted images event s h)

abbrev pub nothing_yet : History
nothing_yet = record { taken = 0; refused = 0; broken = 0 }

-- The books after `k` events.
pub record Balanced (k : ℕ) (h : History) (received generation dropped claim : ℕ) : Type 0 where
  pub received_is : received + 1 ≡ generation
  pub bounded : generation + h.refused + h.broken ≤ k + 1
  pub claimed_le : claim ≤ generation
  pub dropped_is : dropped + h.taken ≡ claim + h.refused + h.broken

module _ (k : ℕ) (h : History) (rc g d c : ℕ) (small : k + 2 < 2 ^ 64)
    (b : Balanced k h rc g d c) where
  pub idle : Balanced (k + 1) h rc g d c
  idle = record {
    received_is = b.received_is;
    bounded = omega (arith, b);
    claimed_le = b.claimed_le;
    dropped_is = b.dropped_is;
  }

  pub published : Balanced (k + 1) h (add_count rc 1) (add_count g 1) d c
  published = record {
    received_is = omega (arith, b);
    bounded = omega (arith, b);
    claimed_le = omega (arith, b);
    dropped_is = b.dropped_is;
  }

  pub refused_one : Balanced (k + 1) (record h { refused = h.refused + 1 }) rc g (add_count d 1) c
  refused_one = record {
    received_is = b.received_is;
    bounded = omega (arith, b);
    claimed_le = b.claimed_le;
    dropped_is = omega (arith, b);
  }

  pub broken_one : Balanced (k + 1) (record h { broken = h.broken + 1 }) rc g (add_count d 1) c
  broken_one = record {
    received_is = b.received_is;
    bounded = omega (arith, b);
    claimed_le = b.claimed_le;
    dropped_is = omega (arith, b);
  }

  skipped_is : skipped g c + count_if (not (g == c)) ≡ g - c
  unfolding skipped
  skipped_is = ground (arith, b.claimed_le, b.bounded)

  pub took_one :
      Balanced
        (k + 1)
        (record h { taken = h.taken + count_if (not (g == c)) })
        rc
        g
        (add_count d (skipped g c))
        g
  took_one = record {
    received_is = b.received_is;
    bounded = omega (arith, b);
    claimed_le = omega arith;
    dropped_is = omega (arith, b, skipped_is);
  }

-- The books of a system, and a frame for the writer to take as long as it runs.
pub record Sound (k : ℕ) (h : History) (s : System) : Type 0 where
  pub books :
      Balanced k h s.engine.status.frames_received s.engine.latest_generation
        s.engine.status.frames_dropped
        (claimed s.writer)
  pub frame_there :
      (s.engine.stop_requested ≡ true)
      ⊎ ((frame : SourceFrame) × (s.engine.latest_frame ≡ some frame))

-- Another history with the same counts.
pub recount :
    (k : ℕ) (h h' : History) (s : System)
    → h'.taken ≡ h.taken
    → h'.refused ≡ h.refused
    → h'.broken ≡ h.broken
    → Sound k h s
    → Sound k h' s
recount k h h' s t r b sound =
    let books = sound.books in
    record {
      books = record {
        received_is = books.received_is;
        bounded = omega (arith, books, r, b);
        claimed_le = books.claimed_le;
        dropped_is = omega (arith, books, t, r, b);
      };
      frame_there = sound.frame_there;
    }

pub count_same : (n : ℕ) → count_if (not (n == n)) ≡ 0
count_same n = ground arith

-- A packed picture of a valid size is a frame of a good size.
pub nv21_size_good :
    (width height : ℤ) (size : ℕ)
    → is_valid_nv21 width height size ≡ true
    → (ltb size 4 || ltb max_frame_bytes size) ≡ false
unfolding is_valid_nv21 is_nv21_size
nv21_size_good (pos w) (pos h) size v =
    let (w_two, h_two, is_size, small) = nv21_facts w h size v in
    let four : 4 ≤ w * h = mul_bound w h w_two h_two in
    let enough : 4 ≤ size = omega (arith, is_size, four) in not_bad size enough small
  where
    nv21_facts :
        (w h size : ℕ)
        → is_nv21_size w h size ≡ true
        → (2 ≤ w) × (2 ≤ h) × (size ≡ w * h * 3 / 2) × (size ≤ max_frame_bytes)
    nv21_facts w h size v = ground arith

    mul_bound : (w h : ℕ) → 2 ≤ w → 2 ≤ h → 4 ≤ w * h
    mul_bound (suc (suc w)) (suc (suc h)) a b = omega arith
    mul_bound _ _ a b = omega arith

    not_bad :
        (size : ℕ)
        → 4 ≤ size
        → size ≤ max_frame_bytes
        → (ltb size 4 || ltb max_frame_bytes size) ≡ false
    not_bad size a b = ground arith
nv21_size_good _ _ size v = cc
