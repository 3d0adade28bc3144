-- ===== src/Syslog/Frames.antt =====
-- RFC 6587 from the receiver's side: a stream is read back frame by frame.
use mathlib.Core.List.{append_assoc}
use api_to_dns.Prelude.{
  drop-append, take-append, false, ◌∙◌, ℕ, zero, suc, ◌+◌, ◌*◌, ◌-◌, ◌/◌, ◌%◌, ◌<◌, ◌≡◌, refl, ap,
  inl, inr, Option, none, some, List, [], ◌∷◌, ◌++◌, arith, length, take, drop, ltb, ◌==◌,
  if◌then◌else◌, Bool-cases, length-append,
}
use api_to_dns.Text.{is_empty, Text, is_digit, show, show_from}
use api_to_dns.Syslog.Message.{frame_tcp}

-- The length in front of a frame, and what follows the space behind it.
unfoldable pub read_length : ℕ → Text → Option (ℕ × Text)
read_length n [] = none
read_length n (c ∷ s) =
    let more = read_length (n * 10 + (c - 48)) s in
    if c == b' ' then some (n, s) else if is_digit c then more else none

abbrev pub cut_frame : Option (ℕ × Text) → Option (Text × Text)
cut_frame none = none
cut_frame (some (n, s)) = if ltb (length s) n then none else some (take n s, drop n s)

unfoldable pub read_frame : Text → Option (Text × Text)
unfolding read_length
read_frame s = cut_frame (read_length 0 s)

abbrev pub collect : (Text → Option (List Text)) → Option (Text × Text) → Option (List Text)
collect more none = none
collect more (some (message, s)) = elim (more s) [
  | none ↦ none
  | some messages ↦ some (message ∷ messages)
]

-- The messages of a stream, of so many frames at most.
unfoldable pub read_frames : ℕ → Text → Option (List Text)
read_frames zero s = if is_empty s then some [] else none
read_frames (suc fuel) s = if is_empty s then some [] else collect (read_frames fuel) (read_frame s)

-- What the forwarder writes to a stream for these messages.
unfoldable pub stream_of : List Text → Text
stream_of [] = []
stream_of (message ∷ messages) = frame_tcp message ++ stream_of messages

read_length-digit :
    (n d : ℕ) (s : Text) → d < 10 → read_length n ((48 + d) ∷ s) ≡ read_length (n * 10 + d) s
unfolding read_length
read_length-digit n d s h = ground arith

read_length-show_from :
    (fuel n : ℕ) (s : Text) → n < fuel → read_length 0 (show_from fuel n s) ≡ read_length n s
unfolding show_from
read_length-show_from zero n s h = absurd (omega arith)
read_length-show_from (suc fuel) n s h = ground (
  arith,
  read_length-show_from fuel (n / 10) ((48 + n % 10) ∷ s),
  read_length-digit 0 (n % 10) s,
  read_length-digit (n / 10) (n % 10) s,
)

show_from-append : (fuel n : ℕ) (s t : Text) → show_from fuel n s ++ t ≡ show_from fuel n (s ++ t)
unfolding show_from
show_from-append zero n s t = refl
show_from-append (suc fuel) n s t = elim (Bool-cases (ltb n 10)) [
  | inl e ↦ rw e
  | inr e ↦ rw e (show_from-append fuel (n / 10) ((48 + n % 10) ∷ s) t)
]

read_length-show : (n : ℕ) (s : Text) → read_length 0 (show n ++ b' ' ∷ s) ≡ some (n, s)
unfolding show read_length
read_length-show n s =
    ap (read_length 0) (show_from-append (suc n) n [] (b' ' ∷ s))
    ∙ read_length-show_from (suc n) n (b' ' ∷ s) (omega arith)

cut_frame-append : (m s : Text) → cut_frame (some (length m, m ++ s)) ≡ some (m, s)
cut_frame-append m s = rw (take-append m s, drop-append m s) (ground (arith, length-append m s))

read_frame-frame_tcp : (m s : Text) → read_frame (frame_tcp m ++ s) ≡ some (m, s)
unfolding read_frame frame_tcp
read_frame-frame_tcp m s =
    ap (λ (t : Text). cut_frame (read_length 0 t)) (append_assoc (show (length m)) (b' ' ∷ m) s)
    ∙ (ap cut_frame (read_length-show (length m) (m ++ s)) ∙ cut_frame-append m s)

is_empty_of_frame :
    (t : Text) {frame : Text × Text} → read_frame t ≡ some frame → is_empty t ≡ false
unfolding read_frame read_length
is_empty_of_frame [] h = cc
is_empty_of_frame (c ∷ t) h = refl

-- A receiver reads back the messages that were framed into a stream, each whole and in their order,
-- whatever they hold.
pub read_frames-stream_of :
    (messages : List Text) → read_frames (length messages) (stream_of messages) ≡ some messages
unfolding read_frames stream_of
read_frames-stream_of [] = refl
read_frames-stream_of (m ∷ messages) =
    let first = read_frame-frame_tcp m (stream_of messages) in
    rw (is_empty_of_frame _ first, first, read_frames-stream_of messages)
