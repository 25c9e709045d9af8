-- ===== src/SocketProxy/Pipe.antt =====
-- What one direction of the relay of daemon/src/socket_proxy.cpp promises: a pipe that carries bytes in
-- order, may end, and may break while it carries.
use vcames.Common.{
  ℕ, zero, suc, ◌+◌, ◌≤◌, ◌<◌, Option, none, some, List, ◌∷◌, length, ◌≡◌, refl, sym, ◌∙◌, Bool,
  true, false, [], ◌++◌, append-nil, append_assoc, take, drop, take-append-drop, Bytes,
}
use vcames.SocketProxy.{Channel, Sent, interrupted, sent}

-- A pipe, and whether it is whole.
pub record Pipe : Type 0 where
  pub channel : Channel
  pub whole : Bool

abbrev pub pipe : Channel → Bool → Pipe
pipe c w = record { channel = c; whole = w }

-- What the kernel answers to one direction in a round: a read, which gives nothing at the end of the
-- connection or on an error, and the sends, of which the last one listed is followed by a failure.
pub record Exchange : Type 0 where
  pub data_read : Option Bytes
  pub sends : List Sent

-- The bytes that these sends can take before one fails.
unfoldable pub capacity : List Sent → ℕ
capacity [] = 0
capacity (interrupted ∷ sends) = capacity sends
capacity (sent zero ∷ sends) = 0
capacity (sent (suc n) ∷ sends) = suc n + capacity sends

-- A whole pipe that has not ended carries all that is read, when the sends can take it; it breaks, and
-- carries what they can take, when they cannot; and it ends when nothing is read.
pub data Step (x : Exchange) : Pipe → Pipe → Type 0 where
  carries :
      (c : Channel) (data_read : Bytes)
      → c.readable ≡ true
      → x.data_read ≡ some data_read
      → length data_read ≤ capacity x.sends
      → Step x (pipe c true) (
          pipe
            (record c { offered = c.offered ++ data_read; delivered = c.delivered ++ data_read })
            true)
  breaks :
      (c : Channel) (data_read : Bytes)
      → c.readable ≡ true
      → x.data_read ≡ some data_read
      → capacity x.sends < length data_read
      → Step x (pipe c true) (
          pipe
            (record c {
              offered = c.offered ++ data_read;
              delivered = c.delivered ++ take (capacity x.sends) data_read;
            })
            false)
  ends :
      (c : Channel)
      → c.readable ≡ true
      → x.data_read ≡ none
      → Step x (pipe c true) (pipe (record c { readable = false }) true)

-- A run of a pipe over the rounds: in each it does nothing, or one step by what the kernel answers then.
pub data Steps : List Exchange → Pipe → Pipe → Type 0 where
  stays : (xs : List Exchange) (p : Pipe) → Steps xs p p
  rests : (x : Exchange) (xs : List Exchange) (p q : Pipe) → Steps xs p q → Steps (x ∷ xs) p q
  moves :
      (x : Exchange) (xs : List Exchange) (p q r : Pipe)
      → Step x p q
      → Steps xs q r
      → Steps (x ∷ xs) p r

behind : (xs ys : List Exchange) (p q : Pipe) → Steps ys p q → Steps (xs ++ ys) p q
behind [] ys p q s = s
behind (x ∷ xs) ys p q s = rests x (xs ++ ys) p q (behind xs ys p q s)

pub joined :
    (xs ys : List Exchange) (p q r : Pipe) → Steps xs p q → Steps ys q r → Steps (xs ++ ys) p r
joined xs ys p q r (stays _ _) last = behind xs ys p r last
joined _ ys p q r (rests x xs _ _ rest) last = rests x (xs ++ ys) p r (joined xs ys p q r rest last)
joined _ ys p q r (moves x xs _ p' _ step rest) last =
    moves x (xs ++ ys) p p' r step (joined xs ys p' q r rest last)

-- The bytes that came out are those that went in, in order, up to the break of a broken pipe.
pub record IsInOrder (p : Pipe) : Type 0 where
  pub lost : Bytes
  pub in_order : p.channel.offered ≡ p.channel.delivered ++ lost
  pub nothing_lost : p.whole ≡ true → lost ≡ []

intact : {c : Channel} → IsInOrder (pipe c true) → c.offered ≡ c.delivered
intact {c} i = i.in_order ∙ rw (i.nothing_lost refl) (append-nil c.delivered)

Step-IsInOrder : (x : Exchange) {p q : Pipe} → Step x p q → IsInOrder p → IsInOrder q
Step-IsInOrder x (carries c data_read flows is fits) i = record {
  lost = [];
  in_order = rw (intact i) (sym (append-nil (c.delivered ++ data_read)));
  nothing_lost = λ _. refl;
}
Step-IsInOrder x (breaks c data_read flows is short) i = record {
  lost = drop (capacity x.sends) data_read;
  in_order =
      rw
        (
          intact i,
          append_assoc c.delivered (take (capacity x.sends) data_read)
              (drop (capacity x.sends) data_read),
          take-append-drop (capacity x.sends) data_read,
        )
        refl;
  nothing_lost = λ w. cc;
}
Step-IsInOrder x (ends c flows is) i = record {
  lost = i.lost;
  in_order = i.in_order;
  nothing_lost = i.nothing_lost;
}

pub Steps-IsInOrder : (xs : List Exchange) (p q : Pipe) → Steps xs p q → IsInOrder p → IsInOrder q
Steps-IsInOrder xs p q (stays _ _) i = i
Steps-IsInOrder _ p q (rests x xs _ _ rest) i = Steps-IsInOrder xs p q rest i
Steps-IsInOrder _ p r (moves x xs _ q _ step rest) i =
    Steps-IsInOrder xs q r rest (Step-IsInOrder x step i)
