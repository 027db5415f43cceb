-- ===== src/Replication/SnapshotFile/Framing.antt =====
-- Messages through a snapshot file.
use regatta.Prelude.{
  ℕ, zero, suc, ◌+◌, ◌^◌, ◌≤◌, ◌<◌, ◌≡◌, refl, sym, ap, ◌∙◌, false, none, List, [], ◌∷◌, ◌++◌,
  length, take, drop, ltb, ◌==◌, arith,
}
use regatta.Bytes.{Bytes}
use regatta.Result.{ok}
use regatta.Fsm.Update.{put_uint}
use regatta.Fsm.Update.Index.{length-put_uint, uint64-put_uint}
use regatta.Replication.SnapshotFile.{snapshot_file, read_full, read_message, read_messages}
use regatta.Manager.Restore.{Stream}
use mathlib.Core.List.{append_assoc, append-nil}

-- The file after a message and another.
abbrev pub written : Bytes → List Bytes → Bytes
written w [] = w
written w (p ∷ ps) = written ((snapshot_file.write w p).0) ps

-- Messages that are not empty and fit a capacity.
abbrev pub Fit : ℕ → List Bytes → Type 0
Fit capacity [] = Unit
Fit capacity (p ∷ ps) = (0 < length p) × (length p ≤ capacity) × Fit capacity ps

abbrev pub frames : List Bytes → Bytes
frames [] = []
frames (p ∷ ps) = put_uint 8 (length p) ++ (p ++ frames ps)

length-append : (a b : Bytes) → length (a ++ b) ≡ length a + length b
length-append [] b = omega arith
length-append (x ∷ a) b = omega (arith, length-append a b)

take-length : (a b : Bytes) → take (length a) (a ++ b) ≡ a
take-length [] b = refl
take-length (x ∷ a) b = ap (◌∷◌ x) (take-length a b)

drop-length : (a b : Bytes) → drop (length a) (a ++ b) ≡ b
drop-length [] b = refl
drop-length (x ∷ a) b = drop-length a b

pub written-frames :
    (capacity : ℕ) (ps : List Bytes) (w : Bytes) → Fit capacity ps → written w ps ≡ w ++ frames ps
written-frames capacity [] w h = sym (append-nil w)
written-frames capacity (p ∷ ps) w h =
    let full : (length p == 0) ≡ false = ground (arith, h.0) in
    rw full (
      written-frames capacity ps (w ++ (put_uint 8 (length p) ++ p)) h.2
      ∙ append_assoc w (put_uint 8 (length p) ++ p) (frames ps)
      ∙ ap (λ x. w ++ x) (append_assoc (put_uint 8 (length p)) p (frames ps)))

-- A read of as many bytes as stand in front.
read_full-append : (a b : Bytes) → read_full none (length a) (a ++ b) ≡ ok (a, b)
unfolding read_full
read_full-append [] b = refl
read_full-append (x ∷ a) b = rw (positive, full, short, take-length a b, drop-length a b) refl
  where
    positive : (suc (length a) == 0) ≡ false
    positive = ground arith

    full : (suc (length (a ++ b)) == 0) ≡ false
    full = ground arith

    short : ltb (length ((x ∷ a) ++ b)) (length (x ∷ a)) ≡ false
    short = ground (arith, length-append a b)

read_message-frame :
    (capacity : ℕ) (p b : Bytes)
    → length p ≤ capacity
    → length p < 2 ^ 64
    → read_message capacity none (put_uint 8 (length p) ++ (p ++ b)) ≡ ok (p, b)
unfolding read_message
read_message-frame capacity p b l small =
    rw (header, uint64-put_uint (length p) small, fits) (read_full-append p b)
  where
    header :
        read_full none 8 (put_uint 8 (length p) ++ (p ++ b)) ≡ ok (put_uint 8 (length p), p ++ b)
    header =
        ap (λ n. read_full none n (put_uint 8 (length p) ++ (p ++ b)))
          (sym (length-put_uint 8 (length p)))
        ∙ read_full-append (put_uint 8 (length p)) (p ++ b)

    fits : ltb capacity (length p) ≡ false
    fits = ground (arith, l)

next_message :
    (fuel capacity : ℕ) (b msg rest : Bytes) (s : Stream)
    → read_message capacity none b ≡ ok (msg, rest)
    → read_messages fuel capacity none rest ≡ ok s
    → read_messages (suc fuel) capacity none b ≡ ok (record s { messages = msg ∷ s.messages })
unfolding read_messages
next_message fuel capacity b msg rest s e f = rw (e, f) refl

at_end :
    (capacity fuel : ℕ)
    → read_messages (suc fuel) capacity none [] ≡ ok (record { messages = []; failure = none })
unfolding read_messages read_message read_full
at_end capacity fuel = refl

-- Messages that are not empty and fit the slice into which they are read, below 2 ^ 64 bytes, come back
-- from a file to which they were written one by one, and no others, in as much fuel as the file has
-- bytes and one more.
pub read_messages-written :
    (capacity : ℕ) (ps : List Bytes)
    → Fit capacity ps
    → capacity < 2 ^ 64
    → read_messages (length (written [] ps) + 1) capacity none (written [] ps)
      ≡ ok (record { messages = ps; failure = none })
read_messages-written capacity ps h small =
    rw (written-frames capacity ps [] h) (loop ps (length (frames ps) + 1) h (enough ps))
  where
    enough : (qs : List Bytes) → length qs < length (frames qs) + 1
    enough [] = omega arith
    enough (q ∷ qs) = omega (
      arith,
      enough qs,
      length-append (put_uint 8 (length q)) (q ++ frames qs),
      length-append q (frames qs),
      length-put_uint 8 (length q),
    )

    loop :
        (qs : List Bytes) (fuel : ℕ)
        → Fit capacity qs
        → length qs < fuel
        → read_messages fuel capacity none (frames qs)
          ≡ ok (record { messages = qs; failure = none })
    loop qs zero h l = absurd (omega (arith, l))
    loop [] (suc fuel) h l = at_end capacity fuel
    loop (q ∷ qs) (suc fuel) h l =
        next_message fuel capacity (frames (q ∷ qs)) q (frames qs)
          (record { messages = qs; failure = none })
          (read_message-frame capacity q (frames qs) h.1 (omega (arith, h.1, small)))
          (loop qs fuel h.2 (omega (arith, l)))
