-- ===== src/Stream/Url.antt =====
-- `ParseStreamSourceUrl` of daemon/src/stream_source.cpp against the grammar of the URLs.
use vcames.Common.{
  ℕ, ◌+◌, ◌≤◌, ◌<◌, String, ◌≡◌, refl, sym, ap, subst, ◌∙◌, ◌≢◌, ◌↔◌, inl, inr, Bool, true, false,
  not, ◌&&◌, ◌||◌, Option, none, some, List, [], ◌∷◌, ◌++◌, map, append-nil, arith, ltb, leb, ◌==◌,
  Bool-cases, Option-cases, length, is_empty, take, drop, all, length-append, take-append-drop,
  take-append, drop-append, drop-drop, Bytes, equal_iff, bytes, equal, find, find_index,
  find_index-none, find_index-some, find_index-all, find_index-append, find-split, find-append,
}
use vcames.Failure.{ok, err, fail_if-eq-ok, bad_url, no_authority, malformed_scheme}
use vcames.Stream.{
  StreamSourceSpec, max_url_bytes, schemes, find_scheme, has_control_character, to_lower,
  is_scheme_byte, ends_authority, authority_of, separator, parse_authority, parse_scheme, parse_at,
  parse_stream_source_url,
}

-- An authority stops at the end of the URL or at a byte that ends it.
pub data Stops : Bytes → Type 0 where
  at_end : Stops []
  at_byte : {x : ℕ} {r : Bytes} → ends_authority x ≡ true → Stops (x ∷ r)

-- What the daemon promises of a URL that it accepts, and asks of one that it is to accept.
pub record IsWellFormed (url : Bytes) (spec : StreamSourceSpec) : Type 0 where
  pub prefix : Bytes
  pub authority : Bytes
  pub path : Bytes
  pub splits : url ≡ prefix ++ (separator ++ (authority ++ path))
  pub short : length url ≤ max_url_bytes
  pub printable : has_control_character url ≡ false
  pub lowered : map to_lower prefix ≡ spec.scheme
  pub listed : find_scheme spec.scheme schemes ≡ some spec.label
  pub host_ne_nil : is_empty authority ≡ false
  pub host_short : length authority ≤ 1024
  pub host_bytes : all (λ c. not (ends_authority c)) authority ≡ true
  pub host_stops : Stops path
  pub transport :
      spec.rtsp_transport ≡ (equal spec.scheme (bytes "rtsp") || equal spec.scheme (bytes "rtsps"))

authority_of-split :
    (rest : Bytes)
    → (path : Bytes) × (rest ≡ authority_of rest ++ path)
      × (all (λ c. not (ends_authority c)) (authority_of rest) ≡ true)
      × Stops path
unfolding authority_of
authority_of-split rest = elim (Option-cases (find_index ends_authority rest)) [
  | inl e ↦ rw (e, authority_of) ([], sym (append-nil rest), find_index-none _ rest e, at_end)
  | inr (n, e) ↦
      let (clean, hit) = find_index-some ends_authority rest n e in
      rw (e, authority_of)
        (drop n rest, sym (take-append-drop n rest), clean, subst Stops (sym hit.2) (at_byte hit.3))
]

authority_of-append :
    (a : Bytes) {path : Bytes}
    → all (λ c. not (ends_authority c)) a ≡ true
    → Stops path
    → authority_of (a ++ path) ≡ a
unfolding authority_of
authority_of-append a h at_end =
    rw (append-nil a) (rw (find_index-all ends_authority a h, authority_of) refl)
authority_of-append a h (at_byte {x} {r} e) =
    rw (find_index-append ends_authority a x r h e, authority_of) (take-append a (x ∷ r))

-- The test passes for every scheme of a table.
abbrev pub table_all : (Bytes → Bool) → List (String × String) → Bool
table_all p [] = true
table_all p ((k, v) ∷ t) = p (bytes k) && table_all p t

pub find_scheme-table_all :
    (p : Bytes → Bool) (s : Bytes) (t : List (String × String)) {label : Bytes}
    → table_all p t ≡ true
    → find_scheme s t ≡ some label
    → p s ≡ true
unfolding find_scheme
find_scheme-table_all p s [] c h = cc
find_scheme-table_all p s ((k, v) ∷ t) c h = elim (Bool-cases (equal s (bytes k))) [
  | inl e ↦ rw ((equal_iff s (bytes k)).0 e) (ground arith)
  | inr e ↦ find_scheme-table_all p s t (ground arith) (rw e at h)
]

-- Every listed scheme is of lower-case letters and digits.
find_scheme-bytes :
    (s : Bytes) {label : Bytes} → find_scheme s schemes ≡ some label → all is_scheme_byte s ≡ true
unfolding schemes bytes all
find_scheme-bytes s h = find_scheme-table_all (all is_scheme_byte) s schemes refl h

parse_authority-ok :
    (scheme label authority : Bytes) {spec : StreamSourceSpec}
    → parse_authority scheme label authority ≡ ok spec
    → (spec.scheme ≡ scheme)
      × (spec.label ≡ label)
      × (is_empty authority ≡ false)
      × (length authority ≤ 1024)
      × (spec.rtsp_transport ≡ (equal scheme (bytes "rtsp") || equal scheme (bytes "rtsps")))
unfolding parse_authority
parse_authority-ok scheme label authority h = ground arith

-- From the scheme and the text behind the separator to a well-formed URL.
parse_scheme-IsWellFormed :
    (url prefix rest : Bytes) {spec : StreamSourceSpec}
    → url ≡ prefix ++ (separator ++ rest)
    → length url ≤ max_url_bytes
    → has_control_character url ≡ false
    → parse_scheme (map to_lower prefix) rest ≡ ok spec
    → IsWellFormed url spec
unfolding parse_scheme
parse_scheme-IsWellFormed url prefix rest {spec} split short printable h =
    elim (Option-cases (find_scheme (map to_lower prefix) schemes)) [
      | inl e ↦ cc (rw (e, parse_scheme) at h)
      | inr (label, e) ↦
          let (same, named, ne, host, transport) =
            parse_authority-ok (map to_lower prefix) label (authority_of rest)
              (rw (e, parse_scheme) at h) in
          let (path, cut, clean, stops) = authority_of-split rest in
          record {
            prefix = prefix;
            authority = authority_of rest;
            path = path;
            splits = split ∙ ap (λ r. prefix ++ (separator ++ r)) cut;
            short = short;
            printable = printable;
            lowered = sym same;
            listed = rw (same, named) e;
            host_ne_nil = ne;
            host_short = host;
            host_bytes = clean;
            host_stops = stops;
            transport = rw same transport;
          }
    ]

parse_at-IsWellFormed :
    (url : Bytes) (i : ℕ) {spec : StreamSourceSpec}
    → find separator url ≡ some i
    → length url ≤ max_url_bytes
    → has_control_character url ≡ false
    → parse_at url (some i) ≡ ok spec
    → IsWellFormed url spec
unfolding parse_at separator
parse_at-IsWellFormed url i found short printable h =
    parse_scheme-IsWellFormed url (take i url) (drop (i + 3) url)
      (find-split separator url i found
        ∙ ap (λ r. take i url ++ (separator ++ r)) (drop-drop 3 i url))
      short printable
      (fail_if-eq-ok (i == 0 || leb (length url) (i + 3)) no_authority
        (parse_scheme (map to_lower (take i url)) (drop (i + 3) url)) h).1

parse-IsWellFormed :
    (url : Bytes) {spec : StreamSourceSpec}
    → parse_stream_source_url true url ≡ ok spec
    → IsWellFormed url spec
unfolding parse_stream_source_url
parse-IsWellFormed url {spec} h =
    let (clean, k) =
      fail_if-eq-ok (is_empty url || ltb max_url_bytes (length url) || has_control_character url)
        bad_url (parse_at url (find separator url)) h in
    elim (Option-cases (find separator url)) [
      | inl e ↦ cc (subst (λ o. parse_at url o ≡ ok spec) e k)
      | inr (i, e) ↦
          parse_at-IsWellFormed url i e (ground arith) (ground arith)
            (subst (λ o. parse_at url o ≡ ok spec) e k)
    ]

not_colon : (c : ℕ) → is_scheme_byte (to_lower c) ≡ true → not (b':' == c) ≡ true
unfolding to_lower
not_colon c h = ground arith

prefix_has_no_colon :
    (a : Bytes) → all is_scheme_byte (map to_lower a) ≡ true → all (λ c. not (b':' == c)) a ≡ true
unfolding all
prefix_has_no_colon [] h = refl
prefix_has_no_colon (c ∷ a) h = ground (arith, not_colon c, prefix_has_no_colon a)

scheme_ne_nil :
    (a : Bytes) {label : Bytes} → find_scheme (map to_lower a) schemes ≡ some label → 0 < length a
unfolding find_scheme schemes bytes equal
scheme_ne_nil [] h = cc
scheme_ne_nil (c ∷ a) h = omega arith

parse_authority_accepts :
    (spec : StreamSourceSpec) (authority : Bytes)
    → all is_scheme_byte spec.scheme ≡ true
    → is_empty authority ≡ false
    → length authority ≤ 1024
    → spec.rtsp_transport ≡ (equal spec.scheme (bytes "rtsp") || equal spec.scheme (bytes "rtsps"))
    → parse_authority spec.scheme spec.label authority ≡ ok spec
unfolding parse_authority
parse_authority_accepts spec authority s ne short t = ground arith

parse_scheme_accepts :
    (authority path : Bytes) (spec : StreamSourceSpec)
    → find_scheme spec.scheme schemes ≡ some spec.label
    → is_empty authority ≡ false
    → length authority ≤ 1024
    → all (λ c. not (ends_authority c)) authority ≡ true
    → Stops path
    → spec.rtsp_transport ≡ (equal spec.scheme (bytes "rtsp") || equal spec.scheme (bytes "rtsps"))
    → parse_scheme spec.scheme (authority ++ path) ≡ ok spec
unfolding parse_scheme
parse_scheme_accepts authority path spec listed ne short clean stops t =
    rw (listed, parse_scheme)
      (rw (authority_of-append authority clean stops)
        (parse_authority_accepts spec authority (find_scheme-bytes spec.scheme listed) ne short t))

drop-separator :
    (prefix rest : Bytes) → drop (length prefix + 3) (prefix ++ (separator ++ rest)) ≡ rest
unfolding separator
drop-separator prefix rest =
    sym (drop-drop 3 (length prefix) (prefix ++ (separator ++ rest)))
    ∙ ap (drop 3) (drop-append prefix (separator ++ rest))

-- The separator is found right behind the prefix, and there is text behind it.
parse_at_cut :
    (prefix authority path : Bytes)
    → 0 < length prefix
    → is_empty authority ≡ false
    → all (λ c. not (b':' == c)) prefix ≡ true
    → parse_at
        (prefix ++ (separator ++ (authority ++ path)))
        (find separator (prefix ++ (separator ++ (authority ++ path))))
      ≡ parse_scheme (map to_lower prefix) (authority ++ path)
unfolding separator
parse_at_cut prefix [] path ne host clean = cc
parse_at_cut prefix (a ∷ authority) path ne host clean =
    rw (find-append b':' (b'/' ∷ b'/' ∷ []) prefix ((a ∷ authority) ++ path) clean) (
      unfold parse_at in
      rw
        (
          enough,
          take-append prefix (separator ++ ((a ∷ authority) ++ path)),
          drop-separator prefix ((a ∷ authority) ++ path),
        )
        refl)
  where
    enough :
        (length prefix == 0
          || leb (length (prefix ++ (separator ++ ((a ∷ authority) ++ path)))) (length prefix + 3))
        ≡ false
    enough = ground (arith, length-append prefix (separator ++ ((a ∷ authority) ++ path)))

IsWellFormed-parse :
    (url : Bytes) {spec : StreamSourceSpec}
    → IsWellFormed url spec
    → parse_stream_source_url true url ≡ ok spec
unfolding parse_stream_source_url
IsWellFormed-parse url {spec} w = ground (
  arith,
  ap length w.splits,
  length-append w.prefix (separator ++ (w.authority ++ w.path)),
  known,
)
  where
    ne : 0 < length w.prefix
    ne = scheme_ne_nil w.prefix {label = spec.label} (rw w.lowered w.listed)

    known : parse_at url (find separator url) ≡ ok spec
    known =
        subst (λ u. parse_at u (find separator u) ≡ ok spec) (sym w.splits)
          (parse_at_cut w.prefix w.authority w.path ne w.host_ne_nil
              (prefix_has_no_colon w.prefix (rw w.lowered (find_scheme-bytes spec.scheme w.listed)))
            ∙ rw w.lowered (
                parse_scheme_accepts w.authority w.path spec w.listed w.host_ne_nil w.host_short
                  w.host_bytes w.host_stops w.transport))

-- A URL is accepted, with `spec` as its description, exactly when it is well formed: a prefix that
-- lower-cases to a listed scheme, `://`, an authority of 1 to 1024 bytes that ends at `/`, `?`, `#`
-- or the end of the URL, at most 4096 bytes in all, none of them a control character.
pub parse_stream_source_url_iff :
    (url : Bytes) (spec : StreamSourceSpec)
    → (parse_stream_source_url true url ≡ ok spec) ↔ IsWellFormed url spec
parse_stream_source_url_iff url spec = (parse-IsWellFormed url, IsWellFormed-parse url)

parse_scheme-ne-malformed : (scheme rest : Bytes) → parse_scheme scheme rest ≢ err malformed_scheme
unfolding parse_scheme
parse_scheme-ne-malformed scheme rest h = elim (Option-cases (find_scheme scheme schemes)) [
  | inl e ↦ cc (rw (e, parse_scheme) at h)
  | inr (label, e) ↦
      let h' : parse_authority scheme label (authority_of rest) ≡ err malformed_scheme =
        rw (e, parse_scheme) at h in
      refute label (find_scheme-bytes scheme e) h'
]
  where
    refute :
        (label : Bytes)
        → all is_scheme_byte scheme ≡ true
        → parse_authority scheme label (authority_of rest) ≢ err malformed_scheme
    refute label clean k = unfold parse_authority in ground arith

parse_at-ne-malformed : (url : Bytes) (o : Option ℕ) → parse_at url o ≢ err malformed_scheme
unfolding parse_at
parse_at-ne-malformed url none h = cc
parse_at-ne-malformed url (some i) h =
    ground (arith, parse_scheme-ne-malformed (map to_lower (take i url)) (drop (i + 3) url))

-- The check that the scheme is of letters and digits never refuses: the table already did.
pub parse_stream_source_url-ne-malformed :
    (given : Bool) (url : Bytes) → parse_stream_source_url given url ≢ err malformed_scheme
unfolding parse_stream_source_url
parse_stream_source_url-ne-malformed given url h =
    ground (arith, parse_at-ne-malformed url (find separator url))
