-- ===== src/Arguments/Safe.antt =====
-- ParseArguments of daemon/src/main.cpp: which settings are safe to bind and to run.
use vcames.Common.{
  ℕ, ◌≡◌, refl, subst, ◌⊎◌, inl, inr, Bool, true, false, not, Option, none, some, List, [], ◌∷◌,
  if◌then◌else◌, Bytes, bytes, equal,
}
use vcames.Config.Command.{digits_value}
use vcames.Arguments.Names.{
  IsSocketName, IsExecutablePath, IsUid, is_safe_socket_name-IsSocketName,
  is_safe_path-IsExecutablePath, is_app_uid-IsUid,
}
use vcames.Arguments.{
  checked, bad_socket_name, bad_ffmpeg_path, bad_uid, usage, Settings, ArgumentError,
  is_safe_socket_name, is_safe_path, is_app_uid, parse_uid, set_flag, set_value, parse_arguments,
}

pub record IsSafe (s : Settings) : Type 0 where
  pub control : IsSocketName s.control_socket_name
  pub frames : IsSocketName s.frame_socket_name
  pub path : IsExecutablePath s.ffmpeg_path
  pub uid : IsUid s.extra_allowed_uid

pub parse_uid-IsUid : (text : Bytes) → IsUid (parse_uid text)
unfolding parse_uid
parse_uid-IsUid [] = tt
parse_uid-IsUid (c ∷ s) = in_range (digits_value 0 (c ∷ s))
  where
    checked_uid :
        (value : ℕ) (t : Bool) → is_app_uid value ≡ t → IsUid (if t then some value else none)
    checked_uid value true e = is_app_uid-IsUid value e
    checked_uid value false e = tt

    in_range :
        (o : Option ℕ)
        → IsUid
            (elim o [ none ↦ none | some value ↦ if is_app_uid value then some value else none ])
    in_range none = tt
    in_range (some value) = checked_uid value (is_app_uid value) refl

-- The settings, if there are any, are safe.
abbrev Safely : Settings ⊎ ArgumentError → Type 0
Safely (inl s) = IsSafe s
Safely (inr why) = Unit

abbrev SafelyFlagged : Option Settings → Type 0
SafelyFlagged none = Unit
SafelyFlagged (some s) = IsSafe s

set_flag-SafelyFlagged :
    (argument : Bytes) (s : Settings) → IsSafe s → SafelyFlagged (set_flag argument s)
unfolding set_flag
set_flag-SafelyFlagged argument s safe =
    by_name (equal argument (bytes "--drop-to-system"))
      (equal argument (bytes "--prime-global-camera"))
  where
    by_name :
        (a b : Bool)
        → SafelyFlagged (
            if a
            then some (record s { drop_to_system = true })
            else if b
            then some (record s { prime_global_camera = true })
            else none)
    by_name true b = record {
      control = safe.control;
      frames = safe.frames;
      path = safe.path;
      uid = safe.uid;
    }
    by_name false true = record {
      control = safe.control;
      frames = safe.frames;
      path = safe.path;
      uid = safe.uid;
    }
    by_name false false = tt

Safely-if :
    (t : Bool) (x y : Settings ⊎ ArgumentError) → Safely x → Safely y → Safely (if t then x else y)
Safely-if true x y a b = a
Safely-if false x y a b = b

set_value-Safely :
    (argument value : Bytes) (s : Settings) → IsSafe s → Safely (set_value argument value s)
unfolding set_value
set_value-Safely argument value s safe =
    Safely-if (equal argument (bytes "--control-socket")) _ _
      (name_checked (is_safe_socket_name value) refl)
      (Safely-if (equal argument (bytes "--frame-socket")) _ _
        (frame_checked (is_safe_socket_name value) refl)
        (Safely-if (equal argument (bytes "--ffmpeg-path")) _ _
          (path_checked (is_safe_path value) refl)
          (Safely-if (not (equal argument (bytes "--allowed-uid"))) _ _ tt
            (uid_checked (parse_uid value) (parse_uid-IsUid value)))))
  where
    name_checked :
        (t : Bool)
        → is_safe_socket_name value ≡ t
        → Safely (checked t bad_socket_name (record s { control_socket_name = value }))
    name_checked true e = record {
      control = is_safe_socket_name-IsSocketName value e;
      frames = safe.frames;
      path = safe.path;
      uid = safe.uid;
    }
    name_checked false e = tt

    frame_checked :
        (t : Bool)
        → is_safe_socket_name value ≡ t
        → Safely (checked t bad_socket_name (record s { frame_socket_name = value }))
    frame_checked true e = record {
      control = safe.control;
      frames = is_safe_socket_name-IsSocketName value e;
      path = safe.path;
      uid = safe.uid;
    }
    frame_checked false e = tt

    path_checked :
        (t : Bool)
        → is_safe_path value ≡ t
        → Safely (checked t bad_ffmpeg_path (record s { ffmpeg_path = value }))
    path_checked true e = record {
      control = safe.control;
      frames = safe.frames;
      path = is_safe_path-IsExecutablePath value e;
      uid = safe.uid;
    }
    path_checked false e = tt

    uid_checked :
        (o : Option ℕ)
        → IsUid o
        → Safely (elim o [
          | none ↦ inr bad_uid
          | some uid ↦ inl (record s { extra_allowed_uid = some uid })
        ])
    uid_checked none u = tt
    uid_checked (some n) u = record {
      control = safe.control;
      frames = safe.frames;
      path = safe.path;
      uid = u;
    }

-- What follows a flag, or an option and its value, is safe if the rest of the command line is.
module _ (next : Settings → Settings ⊎ ArgumentError)
    (safely : (s : Settings) → IsSafe s → Safely (next s)) where
  flagged :
      (o : Option Settings) (otherwise : Settings ⊎ ArgumentError)
      → SafelyFlagged o
      → Safely otherwise
      → Safely (elim o [ some s ↦ next s | none ↦ otherwise ])
  flagged none otherwise u safe = safe
  flagged (some s) otherwise safe u = safely s safe

  valued :
      (r : Settings ⊎ ArgumentError)
      → Safely r
      → Safely (elim r [ inl s ↦ next s | inr why ↦ inr why ])
  valued (inl s) safe = safely s safe
  valued (inr why) u = tt

parse_arguments-Safely :
    (arguments : List Bytes) (s : Settings) → IsSafe s → Safely (parse_arguments arguments s)
unfolding parse_arguments
parse_arguments-Safely [] s safe = safe
parse_arguments-Safely (argument ∷ []) s safe =
    flagged (λ s'. inl s') (λ s' safe'. safe') (set_flag argument s) (inr usage)
      (set_flag-SafelyFlagged argument s safe) tt
parse_arguments-Safely (argument ∷ value ∷ rest) s safe =
    flagged (parse_arguments (value ∷ rest)) (parse_arguments-Safely (value ∷ rest))
      (set_flag argument s) _ (set_flag-SafelyFlagged argument s safe)
      (valued (parse_arguments rest) (parse_arguments-Safely rest) (set_value argument value s)
        (set_value-Safely argument value s safe))

-- From safe settings, as the defaults are, every command line that the daemon accepts leads to safe
-- settings: socket names of 1 to 106 letters, digits and bytes of `_.-`, an absolute path of at most 512
-- such bytes and `/`, and no user but one of 10000 to 2000000.
pub parse_arguments-IsSafe :
    (arguments : List Bytes) (s s' : Settings)
    → IsSafe s
    → parse_arguments arguments s ≡ inl s'
    → IsSafe s'
parse_arguments-IsSafe arguments s s' safe h =
    subst Safely h (parse_arguments-Safely arguments s safe)
