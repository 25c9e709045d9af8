-- ===== src/Arguments/Names.antt =====
-- The names, paths and users that the command lines of daemon/src/main.cpp and daemon/src/socket_proxy.cpp
-- may give.
use vcames.Common.{
  ℕ, ◌≤◌, ◌≡◌, refl, ◌⊎◌, Bool, true, Option, none, some, [], ◌∷◌, arith, All, all, length, Bytes,
}
use vcames.Arguments.{
  is_socket_byte, is_path_byte, is_safe_socket_name, is_absolute, is_safe_path, is_app_uid,
}

-- A letter, a digit, `_`, `.` or `-` of ASCII.
abbrev pub IsNameByte : ℕ → Type 0
IsNameByte c =
    ((97 ≤ c) × (c ≤ 122))
    ⊎ ((65 ≤ c) × (c ≤ 90))
    ⊎ ((48 ≤ c) × (c ≤ 57))
    ⊎ (c ≡ 95)
    ⊎ (c ≡ 46)
    ⊎ (c ≡ 45)

pub record IsSocketName (name : Bytes) : Type 0 where
  pub not_empty : 1 ≤ length name
  pub short : length name ≤ 106
  pub of_name_bytes : All IsNameByte name

pub record IsExecutablePath (path : Bytes) : Type 0 where
  pub rest : Bytes
  pub absolute : path ≡ 47 ∷ rest
  pub short : length path ≤ 512
  pub of_path_bytes : All (λ c. IsNameByte c ⊎ (c ≡ 47)) path

-- No user, or the user of an application.
abbrev pub IsUid : Option ℕ → Type 0
IsUid none = Unit
IsUid (some uid) = (10000 ≤ uid) × (uid ≤ 2000000)

is_socket_byte-IsNameByte : (c : ℕ) → is_socket_byte c ≡ true → IsNameByte c
unfolding is_socket_byte
is_socket_byte-IsNameByte c h = ground arith

all-All :
    {P : ℕ → Type 0} (p : ℕ → Bool) (s : Bytes)
    → ((c : ℕ) → p c ≡ true → P c)
    → all p s ≡ true
    → All P s
unfolding all
all-All p [] each h = tt
all-All p (c ∷ s) each h = (each c (ground arith), all-All p s each (ground arith))

pub is_safe_socket_name-IsSocketName :
    (name : Bytes) → is_safe_socket_name name ≡ true → IsSocketName name
unfolding is_safe_socket_name
is_safe_socket_name-IsSocketName [] h = cc
is_safe_socket_name-IsSocketName (c ∷ s) h = record {
  not_empty = omega arith;
  short = ground arith;
  of_name_bytes = all-All is_socket_byte (c ∷ s) is_socket_byte-IsNameByte (ground arith);
}

pub is_safe_path-IsExecutablePath :
    (path : Bytes) → is_safe_path path ≡ true → IsExecutablePath path
unfolding is_safe_path is_absolute is_path_byte is_socket_byte
is_safe_path-IsExecutablePath [] h = cc
is_safe_path-IsExecutablePath (c ∷ s) h = record {
  rest = s;
  absolute = let slash : c ≡ 47 = ground arith in rw slash refl;
  short = ground arith;
  of_path_bytes = all-All is_path_byte (c ∷ s) (λ b e. ground arith) (ground arith);
}

pub is_app_uid-IsUid : (uid : ℕ) → is_app_uid uid ≡ true → IsUid (some uid)
unfolding is_app_uid
is_app_uid-IsUid uid h = ground arith
