-- ===== src/Config/Command/Request.antt =====
-- ParseCommand of daemon/src/config.cpp against the request that the controller writes
-- (`VCamConfig.toStartCommand` of app/src/main/java/io/github/gushu101/vcames/VCamConfig.java).
use vcames.Common.{
  ℕ, ◌+◌, ◌*◌, ◌≤◌, String, ◌≡◌, refl, sym, ap, ◌∙◌, ◌⊎◌, inl, inr, Bool, true, false, not, ◌||◌,
  some, List, [], ◌∷◌, ◌++◌, append_assoc, arith, ◌==◌, if◌then◌else◌, length, is_empty, any, all,
  length-append, ℤ, pos, to_string, Bytes, bytes, equal, find_index,
}
use vcames.Failure.{ok}
use vcames.Stream.{has_control_character}
use vcames.Stream.Url.{parse_stream_source_url_iff}
use vcames.Config.{Config, default_config, validate, contains_control_character}
use vcames.Config.Valid.{IsValid, validate_iff}
use vcames.Config.Command.Accepts.{Visits, all_known-Permᴰ, check_known_iff}
use vcames.Config.Command.{
  start, strip_return, Values, lookup, read_option, read_options, config_of, is_known_option,
  parse_start, parse_lines, parse_command, lines, parse_int, parse_bool,
}

-- One line `name=value`, in front of the rest of the request.
pub option_line : String → Bytes → Bytes → Bytes
option_line name value rest = bytes name ++ b'=' ∷ (value ++ b'\n' ∷ rest)

pub start_request : Config → Bytes
start_request c =
    bytes "START"
    ++ b'\n'
      ∷ option_line "url" c.url (
          option_line "video_device" c.video_device (
            option_line "width" (to_string c.width) (
              option_line "height" (to_string c.height) (
                option_line "fps" (to_string c.fps) (
                  option_line "rotation" (to_string c.rotation) (
                    option_line "mirror" (bytes (if c.mirror then "1" else "0")) (bytes ".\n")))))))

-- No byte of a printable text ends a line.
abbrev is_line_byte : ℕ → Bool
is_line_byte c = not (c == b'\n' || c == b'\r')

printable-line : (s : Bytes) → contains_control_character s ≡ false → all is_line_byte s ≡ true
unfolding contains_control_character any all
printable-line [] h = refl
printable-line (c ∷ s) h = ground (arith, printable-line s)

lines-append :
    (l rest : Bytes) → all is_line_byte l ≡ true → lines (l ++ b'\n' ∷ rest) ≡ l ∷ lines rest
unfolding lines all
lines-append [] rest h = refl
lines-append (c ∷ l) rest h = ground (arith, lines-append l rest)

strip_return-line : (l : Bytes) → all is_line_byte l ≡ true → strip_return l ≡ l
unfolding strip_return all
strip_return-line [] h = refl
strip_return-line (c ∷ []) h = ground arith
strip_return-line (c ∷ d ∷ s) h = ground (arith, strip_return-line (d ∷ s))

all-append : (p : ℕ → Bool) (a b : Bytes) → all p a ≡ true → all p b ≡ true → all p (a ++ b) ≡ true
unfolding all
all-append p [] b h k = k
all-append p (x ∷ a) b h k = ground (arith, all-append p a b)

abbrev named : String → Bytes → Bytes
named name value = bytes name ++ b'=' ∷ value

named-line :
    (name : String) (value : Bytes)
    → all is_line_byte (bytes name) ≡ true
    → all is_line_byte value ≡ true
    → all is_line_byte (named name value) ≡ true
named-line name value h k = all-append is_line_byte (bytes name) (b'=' ∷ value) h (unfold all in k)

lines-option_line :
    (name : String) (value rest : Bytes) {ls : List Bytes}
    → all is_line_byte (bytes name) ≡ true
    → all is_line_byte value ≡ true
    → lines rest ≡ ls
    → lines (option_line name value rest) ≡ named name value ∷ ls
unfolding option_line
lines-option_line name value rest h k tail =
    ap lines (sym (append_assoc (bytes name) (b'=' ∷ value) (b'\n' ∷ rest)))
    ∙ lines-append (named name value) rest (named-line name value h k)
    ∙ ap (◌∷◌ (named name value)) tail

length-option_line :
    (name : String) (value rest : Bytes)
    → length (option_line name value rest) ≡ length (bytes name) + length value + length rest + 2
unfolding option_line
length-option_line name value rest = omega (
  arith,
  length-append (bytes name) (b'=' ∷ (value ++ b'\n' ∷ rest)),
  length-append value (b'\n' ∷ rest),
)

read_options-step :
    (values values' : Values) (l : Bytes) (ls : List Bytes)
    → strip_return l ≡ l
    → equal l (bytes ".") ≡ false
    → read_option values l ≡ ok values'
    → read_options values (l ∷ ls) ≡ read_options values' ls
unfolding read_options
read_options-step values values' l ls s other read =
    rw (s, read_options) (rw (other, read_options) (rw (s, read) refl))

read_options-named :
    (name : String) (value : Bytes) (values : Values) (ls : List Bytes)
    → all is_line_byte (bytes name) ≡ true
    → all is_line_byte value ≡ true
    → equal (named name value) (bytes ".") ≡ false
    → read_option values (named name value) ≡ ok ((bytes name, value) ∷ values)
    → read_options values (named name value ∷ ls) ≡ read_options ((bytes name, value) ∷ values) ls
unfolding read_options
read_options-named name value values ls h k other read =
    read_options-step values ((bytes name, value) ∷ values) (named name value) ls
      (strip_return-line (named name value) (named-line name value h k)) other read

-- The option lines of a request and what they are read as, from the texts of the values.
module _ (url device width height fps rotation mirror : Bytes) where
  abbrev option_lines : List Bytes
  option_lines =
      named "url" url
      ∷ named "video_device" device
      ∷ named "width" width
      ∷ named "height" height
      ∷ named "fps" fps
      ∷ named "rotation" rotation
      ∷ named "mirror" mirror
      ∷ bytes "."
      ∷ []

  abbrev option_values : Values
  option_values =
      (bytes "mirror", mirror)
      ∷ (bytes "rotation", rotation)
      ∷ (bytes "fps", fps)
      ∷ (bytes "height", height)
      ∷ (bytes "width", width)
      ∷ (bytes "video_device", device)
      ∷ (bytes "url", url)
      ∷ []

  read_option_lines :
      all is_line_byte url ≡ true
      → all is_line_byte device ≡ true
      → all is_line_byte width ≡ true
      → all is_line_byte height ≡ true
      → all is_line_byte fps ≡ true
      → all is_line_byte rotation ≡ true
      → all is_line_byte mirror ≡ true
      → read_options [] option_lines ≡ ok option_values
  unfolding all bytes equal read_option find_index
  read_option_lines u d w h f r m =
      read_options-named "url" url _ _ refl u refl refl
      ∙ read_options-named "video_device" device _ _ refl d refl refl
      ∙ read_options-named "width" width _ _ refl w refl refl
      ∙ read_options-named "height" height _ _ refl h refl refl
      ∙ read_options-named "fps" fps _ _ refl f refl refl
      ∙ read_options-named "rotation" rotation _ _ refl r refl refl
      ∙ read_options-named "mirror" mirror _ _ refl m refl refl
      ∙ unfold read_options strip_return in refl

  known_option_values : all (λ e. is_known_option e.0) option_values ≡ true
  unfolding all is_known_option equal bytes
  known_option_values = refl

rotation_text :
    (r : ℤ)
    → (r ≡ pos 0) ⊎ (r ≡ pos 90) ⊎ (r ≡ pos 180) ⊎ (r ≡ pos 270)
    → (all is_line_byte (to_string r) ≡ true)
      × (length (to_string r) ≤ 3)
      × (parse_int (to_string r) ≡ some r)
unfolding all to_string parse_int
rotation_text r (inl e) = rw e (refl, omega arith, refl)
rotation_text r (inr (inl e)) = rw e (refl, omega arith, refl)
rotation_text r (inr (inr (inl e))) = rw e (refl, omega arith, refl)
rotation_text r (inr (inr (inr e))) = rw e (refl, omega arith, refl)

url_line : (c : Config) → IsValid c → (all is_line_byte c.url ≡ true) × (length c.url ≤ 4096)
unfolding bytes all
url_line c v = elim v.source [
  | inl e ↦ rw e (refl, omega arith)
  | inr (inl e) ↦ rw e (refl, omega arith)
  | inr (inr n) ↦
      let w = (parse_stream_source_url_iff c.url n.spec).0 n.accepted in
      (
        printable-line c.url
            (unfold has_control_character contains_control_character in w.printable),
        w.short,
      )
]

abbrev mirror_text : Bool → Bytes
mirror_text m = bytes (if m then "1" else "0")

config_of-option_values :
    (url device wt ht ft rt mt : Bytes) (w h f r : ℤ) (m : Bool)
    → parse_int wt ≡ some w
    → parse_int ht ≡ some h
    → parse_int ft ≡ some f
    → parse_int rt ≡ some r
    → parse_bool mt ≡ some m
    → config_of (option_values url device wt ht ft rt mt)
      ≡ ok (record default_config {
        url = url;
        video_device = device;
        width = w;
        height = h;
        fps = f;
        rotation = r;
        mirror = m;
      })
unfolding config_of lookup equal bytes
config_of-option_values url device wt ht ft rt mt w h f r m ew eh ef er em = ground arith

parse_bool-mirror_text : (m : Bool) → parse_bool (mirror_text m) ≡ some m
unfolding parse_bool equal bytes
parse_bool-mirror_text true = refl
parse_bool-mirror_text false = refl

mirror_line : (m : Bool) → all is_line_byte (mirror_text m) ≡ true
unfolding all bytes
mirror_line true = refl
mirror_line false = refl

lines-start_request :
    (c : Config)
    → all is_line_byte c.url ≡ true
    → all is_line_byte c.video_device ≡ true
    → all is_line_byte (to_string c.width) ≡ true
    → all is_line_byte (to_string c.height) ≡ true
    → all is_line_byte (to_string c.fps) ≡ true
    → all is_line_byte (to_string c.rotation) ≡ true
    → lines (start_request c)
      ≡ bytes "START"
        ∷ option_lines c.url c.video_device
            (to_string c.width)
            (to_string c.height)
            (to_string c.fps)
            (to_string c.rotation)
            (mirror_text c.mirror)
unfolding start_request all bytes
lines-start_request c u d w h f r =
    lines-append (bytes "START") _ refl
    ∙ ap (◌∷◌ (bytes "START")) (
        lines-option_line "url" c.url _ refl u (
          lines-option_line "video_device" c.video_device _ refl d (
            lines-option_line "width" (to_string c.width) _ refl w (
              lines-option_line "height" (to_string c.height) _ refl h (
                lines-option_line "fps" (to_string c.fps) _ refl f (
                  lines-option_line "rotation" (to_string c.rotation) _ refl r (
                    lines-option_line "mirror" (mirror_text c.mirror) _ refl (mirror_line c.mirror)
                      (unfold lines in refl))))))))

length-mirror_text : (m : Bool) → length (mirror_text m) ≡ 1
unfolding bytes
length-mirror_text true = refl
length-mirror_text false = refl

length-option_line-le :
    (name : String) (value rest : Bytes) (k n m : ℕ)
    → length (bytes name) ≤ 12
    → length value ≤ k
    → length rest ≤ n
    → k + n + 14 ≤ m
    → length (option_line name value rest) ≤ m
length-option_line-le name value rest k n m a b c e =
    omega (arith, length-option_line name value rest)

-- The request is short, from the `url` line on.
length-option_lines :
    (c : Config)
    → length c.url ≤ 4096
    → length c.video_device ≤ 64
    → length (to_string c.width) ≤ 4
    → length (to_string c.height) ≤ 4
    → length (to_string c.fps) ≤ 4
    → length (to_string c.rotation) ≤ 4
    → length (start_request c) ≤ 8192
unfolding start_request bytes
length-option_lines c u d w h f r =
    let mirror =
      length-option_line-le "mirror" (mirror_text c.mirror) (bytes ".\n") 1 2 32 (omega arith)
        (omega (arith, length-mirror_text c.mirror)) (omega arith) (omega arith) in
    let rotation =
      length-option_line-le "rotation" (to_string c.rotation) _ 4 32 64 (omega arith) r mirror
        (omega arith) in
    let fps =
      length-option_line-le "fps" (to_string c.fps) _ 4 64 96 (omega arith) f rotation
        (omega arith) in
    let height =
      length-option_line-le "height" (to_string c.height) _ 4 96 128 (omega arith) h fps
        (omega arith) in
    let width =
      length-option_line-le "width" (to_string c.width) _ 4 128 160 (omega arith) w height
        (omega arith) in
    let device =
      length-option_line-le "video_device" c.video_device _ 64 160 300 (omega arith) d width
        (omega arith) in
    let url =
      length-option_line-le "url" c.url _ 4096 300 8000 (omega arith) u device (omega arith) in
    omega arith

is_empty-start_request : (c : Config) → is_empty (start_request c) ≡ false
unfolding start_request bytes
is_empty-start_request c = refl

numbers_text :
    (n : ℤ)
    → (n ≡ pos 1280) ⊎ (n ≡ pos 720) ⊎ (n ≡ pos 30)
    → (all is_line_byte (to_string n) ≡ true)
      × (length (to_string n) ≤ 4)
      × (parse_int (to_string n) ≡ some n)
unfolding all to_string parse_int
numbers_text n (inl e) = rw e (refl, omega arith, refl)
numbers_text n (inr (inl e)) = rw e (refl, omega arith, refl)
numbers_text n (inr (inr e)) = rw e (refl, omega arith, refl)

module _ (order : Values → Values) (visits : Visits order) where
  parse_start-values :
      (ls : List Bytes) (values : Values) (c : Config)
      → read_options [] ls ≡ ok values
      → config_of values ≡ ok c
      → all (λ e. is_known_option e.0) values ≡ true
      → validate c ≡ ok tt
      → parse_start order ls ≡ ok (start c)
  unfolding parse_start
  parse_start-values ls values c read built known valid = rw read (
      rw built (
        rw ((check_known_iff (order values)).1 (all_known-Permᴰ (visits values) ∙ known))
          (rw valid refl)))

  parse_command-lines :
      (request : Bytes) (ls : List Bytes)
      → length request ≤ 16 * 1024
      → is_empty request ≡ false
      → lines request ≡ ls
      → parse_command order true request ≡ parse_lines order ls
  unfolding parse_command
  parse_command-lines request ls size ne e = rw e (ground arith)

  parse_lines-start :
      (ls : List Bytes) → parse_lines order (bytes "START" ∷ ls) ≡ parse_start order ls
  unfolding parse_lines bytes equal
  parse_lines-start ls = refl

  -- The daemon reads the request that the controller writes for a valid configuration back as exactly
  -- that configuration, in whatever order it walks its table of options.
  pub parse_command-start_request :
      (c : Config)
      → IsValid c
      → c.ffmpeg_path ≡ default_config.ffmpeg_path
      → parse_command order true (start_request c) ≡ ok (start c)
  parse_command-start_request c v path =
      let (u, ul) = url_line c v in
      let d = printable-line c.video_device v.device_printable in
      let (w, wl, wp) = numbers_text c.width (inl v.width_fixed) in
      let (h, hl, hp) = numbers_text c.height (inr (inl v.height_fixed)) in
      let (f, fl, fp) = numbers_text c.fps (inr (inr v.fps_fixed)) in
      let (r, rl, rp) = rotation_text c.rotation v.right_angle in
      let size = length-option_lines c ul v.device_short wl hl fl (omega arith) in
      let built =
        config_of-option_values c.url c.video_device (to_string c.width) (to_string c.height)
          (to_string c.fps) (to_string c.rotation) (mirror_text c.mirror) c.width c.height c.fps
          c.rotation c.mirror wp hp fp rp (parse_bool-mirror_text c.mirror) in
      let read =
        read_option_lines c.url c.video_device (to_string c.width) (to_string c.height)
          (to_string c.fps) (to_string c.rotation) (mirror_text c.mirror) u d w h f r
          (mirror_line c.mirror) in
      parse_command-lines (start_request c) _ (omega arith) (is_empty-start_request c)
        (lines-start_request c u d w h f r)
      ∙ parse_lines-start _
      ∙ parse_start-values _ _ c read
          (built ∙ ap (λ p. ok (record c { ffmpeg_path = p })) (sym path))
          (known_option_values c.url c.video_device (to_string c.width) (to_string c.height)
            (to_string c.fps) (to_string c.rotation) (mirror_text c.mirror))
          ((validate_iff c).1 v)
