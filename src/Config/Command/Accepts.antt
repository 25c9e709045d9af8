-- ===== src/Config/Command/Accepts.antt =====
-- ParseCommand of daemon/src/config.cpp: what an accepted START request is.
use vcames.Common.{
  ℕ, zero, suc, ◌+◌, ◌*◌, ◌≤◌, ◌≡◌, refl, sym, ap, subst, ◌∙◌, ◌↔◌, inl, inr, Bool, true, false,
  not, ◌||◌, none, some, List, [], ◌∷◌, ◌++◌, arith, ltb, ◌==◌, ==_iff, Bool-cases, Option-cases,
  length, is_empty, take, drop, all, take-append-drop, drop-drop, Bytes, equal_iff, find_index-some,
  bytes, equal, find_index,
}
use mathlib.Core.List.{Permᴰ}
use mathlib.Core.List.Permᴰ.{nil, cons, swap, trans}
use vcames.Failure.{
  ok, err, fail_if-eq-ok, passed_first, command_missing, bad_request_size, duplicate_option,
}
use vcames.Config.{Config, validate}
use vcames.Config.Valid.{IsValid, validate_iff}
use vcames.Config.Command.{
  start, strip_return, Values, lookup, read_option, read_options, config_of, is_known_option,
  check_known, parse_start, parse_lines, parse_command, lines,
}

-- A walk over a hash map visits every entry once.
abbrev pub Visits : (Values → Values) → Type 0
Visits order = (values : Values) → Permᴰ (order values) values

-- The lines behind `START`, read in order up to a line `.`: each gives a new key a value.
pub data Reads : Values → List Bytes → Values → Type 0 where
  ended :
      {values : Values} {l : Bytes} {ls : List Bytes}
      → strip_return l ≡ bytes "."
      → Reads values (l ∷ ls) values
  option :
      {values final : Values} {l : Bytes} {ls : List Bytes} (key value : Bytes)
      → strip_return l ≡ key ++ b'=' ∷ value
      → is_empty key ≡ false
      → all (λ c. not (c == b'=')) key ≡ true
      → lookup key values ≡ none
      → Reads ((key, value) ∷ values) ls final
      → Reads values (l ∷ ls) final

take_ne_nil :
    (l : Bytes) (i : ℕ)
    → find_index (λ c. c == b'=') l ≡ some (suc i)
    → is_empty (take (suc i) l) ≡ false
unfolding find_index
take_ne_nil [] i h = cc
take_ne_nil (c ∷ l) i h = refl

emplace-ok :
    (key value : Bytes) (values : Values) {values' : Values}
    → (elim (lookup key values) [
      | none ↦ ok ((key, value) ∷ values)
      | some _ ↦ err (duplicate_option key)
    ])
      ≡ ok values'
    → (lookup key values ≡ none) × (values' ≡ (key, value) ∷ values)
emplace-ok key value values h = ground arith

read_option-split :
    (values values' : Values) (l : Bytes)
    → read_option values l ≡ ok values'
    → (key : Bytes) × (value : Bytes) × (l ≡ key ++ b'=' ∷ value)
      × (is_empty key ≡ false)
      × (all (λ c. not (c == b'=')) key ≡ true)
      × (lookup key values ≡ none)
      × (values' ≡ (key, value) ∷ values)
unfolding read_option
read_option-split values values' l h = elim (Option-cases (find_index (λ c. c == b'=') l)) [
  | inl e ↦ cc (rw (e, read_option) at h)
  | inr (zero, e) ↦ cc (rw (e, read_option) at h)
  | inr (suc i, e) ↦
      let (clean, cut) = find_index-some (λ c. c == b'=') l (suc i) e in
      let behind : drop (suc i + 1) l ≡ cut.1 = sym (drop-drop 1 (suc i) l) ∙ ap (drop 1) cut.2 in
      let (fresh, grown) =
        emplace-ok (take (suc i) l) (drop (suc i + 1) l) values (rw (e, read_option) at h) in
      let here : cut.0 ≡ b'=' = (==_iff cut.0 b'=').0 cut.3 in
      (
        take (suc i) l,
        cut.1,
        sym (take-append-drop (suc i) l)
            ∙ ap (λ r. take (suc i) l ++ r) (cut.2 ∙ ap (λ c. c ∷ cut.1) here),
        take_ne_nil l i e,
        clean,
        fresh,
        grown ∙ ap (λ v. (take (suc i) l, v) ∷ values) behind,
      )
]

read_options-Reads :
    (ls : List Bytes) (values final : Values)
    → read_options values ls ≡ ok final
    → Reads values ls final
unfolding read_options
read_options-Reads [] values final h = cc
read_options-Reads (l ∷ ls) values final h =
    elim (Bool-cases (equal (strip_return l) (bytes "."))) [
      | inl e ↦
          let same : values ≡ final = ground arith in
          subst (Reads values (l ∷ ls)) same (ended ((equal_iff (strip_return l) (bytes ".")).0 e))
      | inr e ↦
          let (values', read, rest) =
            passed_first (read_option values (strip_return l)) (λ v. read_options v ls)
              (ground arith) in
          let (key, value, cut, ne, clean, fresh, grown) =
            read_option-split values values' (strip_return l) read in
          option key value cut ne clean fresh (
            read_options-Reads ls ((key, value) ∷ values) final
              (subst (λ v. read_options v ls ≡ ok final) grown rest))
    ]

pub all_known-Permᴰ :
    {l m : Values} → Permᴰ l m → all (λ e. is_known_option e.0) l ≡ all (λ e. is_known_option e.0) m
unfolding all
all_known-Permᴰ nil = refl
all_known-Permᴰ (cons e p) = rw (e, all_known-Permᴰ p) refl
all_known-Permᴰ (swap {a} {b} e f) = ground (arith, e, f)
all_known-Permᴰ (trans p q) = all_known-Permᴰ p ∙ all_known-Permᴰ q

pub check_known_iff :
    (values : Values)
    → (check_known values ≡ ok tt) ↔ (all (λ e. is_known_option e.0) values ≡ true)
unfolding check_known all
check_known_iff [] = (λ _. refl, λ _. refl)
check_known_iff ((k, v) ∷ m) = ground (arith, check_known_iff m)

-- A start request that is accepted.
pub record IsStart (request : Bytes) (c : Config) : Type 0 where
  pub size : length request ≤ 16 * 1024
  pub first : Bytes
  pub rest : List Bytes
  pub values : Values
  pub begins : lines request ≡ first ∷ rest
  pub says_start : strip_return first ≡ bytes "START"
  pub reads : Reads [] rest values
  pub known : all (λ e. is_known_option e.0) values ≡ true
  pub built : config_of values ≡ ok c
  pub valid : IsValid c

module _ (order : Values → Values) (visits : Visits order) where
  parse_start-ok :
      (ls : List Bytes) (c : Config)
      → parse_start order ls ≡ ok (start c)
      → (values : Values) × Reads [] ls values
        × (all (λ e. is_known_option e.0) values ≡ true)
        × (config_of values ≡ ok c)
        × IsValid c
  unfolding parse_start
  parse_start-ok ls c h =
      let (values, read, rest) = passed_first (read_options [] ls) _ h in
      let (config, built, rest') = passed_first (config_of values) _ rest in
      let (_, known, rest'') = passed_first (check_known (order values)) _ rest' in
      let (_, checked, done) = passed_first (validate config) (λ _. ok (start config)) rest'' in
      let same : config ≡ c = ground arith in
      (
        values,
        read_options-Reads ls [] values read,
        sym (all_known-Permᴰ (visits values)) ∙ (check_known_iff (order values)).0 known,
        built ∙ ap ok same,
        subst IsValid same ((validate_iff config).0 checked),
      )

  parse_lines-ok :
      (first : Bytes) (ls : List Bytes) (c : Config)
      → parse_lines order (first ∷ ls) ≡ ok (start c)
      → (strip_return first ≡ bytes "START") × (parse_start order ls ≡ ok (start c))
  unfolding parse_lines
  parse_lines-ok first ls c h = ground (arith, equal_iff (strip_return first) (bytes "START"))

  lines-ok :
      (ls : List Bytes) (request : Bytes) (c : Config)
      → length request ≤ 16 * 1024
      → lines request ≡ ls
      → parse_lines order ls ≡ ok (start c)
      → IsStart request c
  lines-ok [] request c size e h = unfold parse_lines in cc
  lines-ok (first ∷ ls) request c size e h =
      let (says, started) = parse_lines-ok first ls c h in
      let (values, reads, known, built, valid) = parse_start-ok ls c started in
      record {
        size = size;
        first = first;
        rest = ls;
        values = values;
        begins = e;
        says_start = says;
        reads = reads;
        known = known;
        built = built;
        valid = valid;
      }

  -- A request that is taken for a start has at most 16 KiB; its first line is `START`; its next
  -- lines, up to a line `.`, are options `key=value` with known and distinct keys; and the
  -- configuration is the one that these options give, and is valid.
  pub parse_command-IsStart :
      (given : Bool) (request : Bytes) (c : Config)
      → parse_command order given request ≡ ok (start c)
      → IsStart request c
  unfolding parse_command
  parse_command-IsStart given request c h =
      let (_, sized) = fail_if-eq-ok (not given) command_missing _ h in
      let (fits, parsed) =
        fail_if-eq-ok (is_empty request || ltb (16 * 1024) (length request)) bad_request_size
          (parse_lines order (lines request)) sized in
      lines-ok (lines request) request c (ground arith) refl parsed
