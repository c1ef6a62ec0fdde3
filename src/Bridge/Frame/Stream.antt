-- ===== src/Bridge/Frame/Stream.antt =====
-- The whole loop of forward_client_to_target, over any number of frames in one buffer.
use caligo_engine.Base.{
  ℕ, zero, suc, ◌+◌, ◌%◌, ◌^◌, ◌≤◌, ◌<◌, ◌≡◌, ◌≢◌, refl, sym, ap, Bool, true, false, ◌||◌, ◌∙◌, inl,
  inr, List, [], ◌∷◌, ◌++◌, map, length, get_or, drop, leb, ◌==◌, if◌then◌else◌, arith,
  length-append, length-drop, drop-append, take-append_le, drop-append_le, get_or-append,
  le→ltb_false, lt→ltb, All, Bool-cases, append-nil,
}
use native.Mathlib.Decide.{dec_le}
use caligo_engine.Bridge.Frame.{
  Parsed, incomplete, overrun, overread, whole, header_len, full_payload_len, sized, parse_frame,
  finished, out_of_fuel, and_send, forward_loop, forward_frames,
}
use caligo_engine.Bridge.Frame.Client.{Message, client_frame, parse_frame-client_frame}

abbrev payload_len : List ℕ → ℕ
payload_len f = get_or f 1 0 % 128

abbrev mask_len : List ℕ → ℕ
mask_len f = if leb 128 (get_or f 1 0) then 4 else 0

-- The size of the frame that opens `f`, uncut.
abbrev total : List ℕ → ℕ
total f = header_len (payload_len f) + mask_len f + full_payload_len (payload_len f) f

header_len_bounds : (n : ℕ) → (2 ≤ header_len n) × (header_len n ≤ 10)
unfolding header_len
header_len_bounds n = ground arith

total_bound : (f : List ℕ) → 2 ≤ total f
total_bound f = omega (arith, header_len_bounds (payload_len f))

sized_size :
    (hl ml full : ℕ) (f : List ℕ) {p : List ℕ} {size : ℕ}
    → sized hl ml full f ≡ whole p size
    → length f < 2 ^ 64
    → (size ≡ hl + ml + full) × (hl + ml + full ≤ length f)
unfolding sized
sized_size hl ml full f h short = ground arith

whole_size :
    (f : List ℕ) {p : List ℕ} {size : ℕ}
    → parse_frame f ≡ whole p size
    → length f < 2 ^ 64
    → (size ≡ total f) × (size ≤ length f) × (header_len (payload_len f) ≤ length f)
unfolding parse_frame
whole_size f {p} {size} h short = ground (
  arith,
  sized_size (header_len (payload_len f)) (mask_len f) (full_payload_len (payload_len f) f) f
      {p = p} {size = size},
)

-- A parsed frame takes at least two bytes, and no more than there are.
whole_bounds :
    (f : List ℕ) {p : List ℕ} {size : ℕ}
    → parse_frame f ≡ whole p size
    → length f < 2 ^ 64
    → (2 ≤ size) × (size ≤ length f)
whole_bounds f h short = let w = whole_size f h short in (omega (arith, total_bound f, w.0), w.1)

-- What send is given bytes behind the buffer of takes no more than there are.
overread_bound : (f : List ℕ) {size : ℕ} → parse_frame f ≡ overread size → size ≤ length f
unfolding parse_frame sized
overread_bound f {size} h = ground arith

-- A frame at which the loop never gets on.
unfoldable pub is_stuck : Parsed → Bool
is_stuck incomplete = false
is_stuck overrun = false
is_stuck (overread size) = size == 0
is_stuck (whole payload size) = false

-- Whether there is such a frame from some byte on.
unfoldable pub gets_stuck : List ℕ → Bool
gets_stuck [] = false
gets_stuck (c ∷ s) = is_stuck (parse_frame (c ∷ s)) || gets_stuck s

gets_stuck-here : (f : List ℕ) → gets_stuck f ≡ false → is_stuck (parse_frame f) ≡ false
unfolding gets_stuck
gets_stuck-here [] h = unfold parse_frame is_stuck in refl
gets_stuck-here (c ∷ s) h = by_case (is_stuck (parse_frame (c ∷ s))) h
  where
    by_case : (b : Bool) → (b || gets_stuck s) ≡ false → b ≡ false
    by_case true h = h
    by_case false h = refl

gets_stuck-drop : (n : ℕ) (f : List ℕ) → gets_stuck f ≡ false → gets_stuck (drop n f) ≡ false
unfolding gets_stuck
gets_stuck-drop zero f h = h
gets_stuck-drop (suc n) [] h = h
gets_stuck-drop (suc n) (c ∷ s) h = gets_stuck-drop n s (by_case (is_stuck (parse_frame (c ∷ s))) h)
  where
    by_case : (b : Bool) → (b || gets_stuck s) ≡ false → gets_stuck s ≡ false
    by_case true h = absurd (apart h)
      where
        apart : true ≡ false → ⊥
        apart h = cc
    by_case false h = h

data Split (r : Parsed) : Type 0 where
  at_end : r ≡ incomplete → Split r
  past_end : r ≡ overrun → Split r
  behind_end : (size : ℕ) → r ≡ overread size → Split r
  at_frame : (p : List ℕ) (size : ℕ) → r ≡ whole p size → Split r

split : (r : Parsed) → Split r
split incomplete = at_end refl
split overrun = past_end refl
split (overread size) = behind_end size refl
split (whole p size) = at_frame p size refl

-- At a frame whose size is cut to 0 the loop stays for ever.
forward_loop_stuck :
    (fuel : ℕ) (f : List ℕ)
    → parse_frame f ≡ overread 0
    → forward_loop fuel f ≡ record { sent = []; stop = out_of_fuel }
unfolding forward_loop
forward_loop_stuck zero f e = refl
forward_loop_stuck (suc fuel) f e = rw (e, forward_loop) (forward_loop_stuck fuel f e)

-- Once there is a round for each byte, more fuel changes nothing.
forward_loop_fuel :
    (i j : ℕ) (f : List ℕ)
    → length f < i
    → length f < j
    → length f < 2 ^ 64
    → forward_loop i f ≡ forward_loop j f
unfolding forward_loop
forward_loop_fuel zero j f hi hj short = absurd (omega arith)
forward_loop_fuel (suc i) zero f hi hj short = absurd (omega arith)
forward_loop_fuel (suc i) (suc j) f hi hj short = elim (split (parse_frame f)) [
  | at_end e ↦ rw (e, forward_loop)
  | past_end e ↦ rw (e, forward_loop)
  | behind_end zero e ↦ forward_loop_stuck (suc i) f e ∙ sym (forward_loop_stuck (suc j) f e)
  | behind_end (suc n) e ↦
      let w = overread_bound f e in
      let less : length (drop (suc n) f) < length f = omega (arith, length-drop (suc n) f, w) in
      rw (e, forward_loop)
        (forward_loop_fuel i j (drop (suc n) f) (omega arith) (omega arith) (omega arith))
  | at_frame p size e ↦
      let w = whole_bounds f e short in
      let less : length (drop size f) < length f = omega (arith, length-drop size f, w.0, w.1) in
      rw (e, forward_loop)
        (ap (and_send p)
          (forward_loop_fuel i j (drop size f) (omega arith) (omega arith) (omega arith)))
]

forward_loop_ends :
    (fuel : ℕ) (f : List ℕ)
    → length f < fuel
    → length f < 2 ^ 64
    → gets_stuck f ≡ false
    → (forward_loop fuel f).stop ≢ out_of_fuel
unfolding forward_loop
forward_loop_ends zero f h short free = absurd (omega arith)
forward_loop_ends (suc fuel) f h short free = elim (split (parse_frame f)) [
  | at_end e ↦ rw (e, forward_loop) (λ c. cc)
  | past_end e ↦ rw (e, forward_loop) (λ c. cc)
  | behind_end zero e ↦ absurd (never (sym (ap is_stuck e) ∙ gets_stuck-here f free))
  | behind_end (suc n) e ↦
      let w = overread_bound f e in
      let less : length (drop (suc n) f) < length f = omega (arith, length-drop (suc n) f, w) in
      rw (e, forward_loop)
        (forward_loop_ends fuel (drop (suc n) f) (omega arith) (omega arith)
          (gets_stuck-drop (suc n) f free))
  | at_frame p size e ↦
      let w = whole_bounds f e short in
      let less : length (drop size f) < length f = omega (arith, length-drop size f, w.0, w.1) in
      rw (e, forward_loop)
        (forward_loop_ends fuel (drop size f) (omega arith) (omega arith)
          (gets_stuck-drop size f free))
]
  where
    never : is_stuck (overread 0) ≡ false → ⊥
    never h = let k : true ≡ false = unfold is_stuck in h in cc

-- On a buffer below 2 ^ 64 bytes the loop of forward_client_to_target ends before its fuel does, unless
-- from some byte on there is a frame without a mask whose size size_t cuts to 0.
pub forward_frames_ends :
    (buf : List ℕ)
    → length buf < 2 ^ 64
    → gets_stuck buf ≡ false
    → (forward_frames buf).stop ≢ out_of_fuel
unfolding forward_frames
forward_frames_ends buf short free = forward_loop_ends _ buf (omega arith) short free

-- A whole frame in front is sent, and the loop goes on behind it.
forward_frames_step :
    (m : Message) (rest : List ℕ)
    → length m.payload < 2 ^ 63
    → length (client_frame m ++ rest) < 2 ^ 64
    → forward_frames (client_frame m ++ rest) ≡ and_send m.payload (forward_frames rest)
unfolding forward_frames forward_loop
forward_frames_step m rest fits short =
    let e = parse_frame-client_frame m rest fits in
    let w = whole_bounds (client_frame m ++ rest) e short in
    let n = length-append (client_frame m) rest in
    rw (e, forward_loop, drop-append (client_frame m) rest)
      (ap (and_send m.payload) (
        forward_loop_fuel (length (client_frame m ++ rest)) (suc (length rest)) rest (omega arith)
          (omega arith) (omega arith)))

-- The length is read from the header alone.
full_payload_len-append :
    (n : ℕ) (p t : List ℕ)
    → header_len n ≤ length p
    → full_payload_len n (p ++ t) ≡ full_payload_len n p
unfolding full_payload_len header_len
full_payload_len-append n p t h = elim (Bool-cases (n == 126)) [
  | inl e ↦ rw e (
      let long : 4 ≤ length p = (ground arith) in
      rw (get_or-append p t 2 0 (omega arith), get_or-append p t 3 0 (omega arith)))
  | inr e ↦ elim (Bool-cases (n == 127)) [
    | inl e' ↦
        let long : 10 ≤ length p = (ground arith) in
        rw (
          e,
          e',
          drop-append_le 2 p t (omega arith),
          take-append_le 8 (drop 2 p) t (omega (arith, length-drop 2 p)),
        )
    | inr e' ↦ rw (e, e')
  ]
]

-- A proper part of a frame is taken for incomplete.
parse_part :
    (p t : List ℕ) {pl : List ℕ} {size : ℕ}
    → parse_frame (p ++ t) ≡ whole pl size
    → length p < size
    → length (p ++ t) < 2 ^ 64
    → parse_frame p ≡ incomplete
parse_part p t {pl} {size} e part short = elim (dec_le 2 (length p)) [
  | no one ↦ unfold parse_frame in rw (lt→ltb (length p) 2 (omega arith))
  | yes two ↦
      let w = whole_size (p ++ t) e short in
      let second = get_or-append p t 1 0 (omega arith) in
      elim (dec_le (header_len (payload_len p)) (length p)) [
        | no cut ↦
            unfold parse_frame in
            rw (
              le→ltb_false (length p) 2 two,
              lt→ltb (length p) (header_len (payload_len p)) (omega arith),
            )
        | yes head ↦
            let same : total (p ++ t) ≡ total p =
              rw (second, full_payload_len-append (payload_len p) p t head) in
            let size_is : size ≡ total p = w.0 ∙ same in
            let uncut : total p % 2 ^ 64 ≡ total p = omega (arith, w.1) in
            unfold parse_frame sized in
            rw (
              le→ltb_false (length p) 2 two,
              le→ltb_false (length p) (header_len (payload_len p)) head,
              uncut,
              lt→ltb (length p) (total p) (omega arith),
            )
      ]
]

-- Some frames, and behind them a part of one more that has not wholly arrived.
abbrev pub stream : List Message → List ℕ → List ℕ
stream [] t = t
stream (m ∷ ms) t = client_frame m ++ stream ms t

length-stream :
    (ms : List Message) (t : List ℕ) → length (stream ms t) ≡ length (stream ms []) + length t
length-stream [] t = omega arith
length-stream (k ∷ ms) t = omega (
  arith,
  length-append (client_frame k) (stream ms t),
  length-append (client_frame k) (stream ms []),
  length-stream ms t,
)

-- Of masked frames that follow each other, payloads below 2 ^ 63 bytes and below 2 ^ 64 bytes in all,
-- and a proper part of one more, the payloads of the whole frames are sent, in order and unmasked,
-- and the loop ends there.
pub forward_frames-stream :
    (ms : List Message) (m : Message) (p t : List ℕ)
    → All (λ (k : Message). length k.payload < 2 ^ 63) (m ∷ ms)
    → client_frame m ≡ p ++ t
    → 0 < length t
    → length (stream ms (client_frame m)) < 2 ^ 64
    → forward_frames (stream ms p) ≡ record { sent = map (λ k. k.payload) ms; stop = finished }
forward_frames-stream [] m p t fits at left short =
    let e = parse_frame-client_frame m [] fits.0 in
    let e' = rw (append-nil) at e in
    let part =
      parse_part p t {pl = m.payload} {size = length (p ++ t)} (rw (at) at e')
        (omega (arith, length-append p t)) (rw at at short) in
    unfold forward_frames forward_loop in rw (part, forward_loop)
forward_frames-stream (k ∷ ms) m p t fits at left short =
    let longer = length-stream (k ∷ ms) (client_frame m) in
    let shorter = length-stream (k ∷ ms) p in
    let n : length (client_frame m) ≡ length p + length t = rw at (length-append p t) in
    rw (
      forward_frames_step k (stream ms p) fits.1.0 (omega arith),
      forward_frames-stream ms m p t (fits.0, fits.1.1) at left
          (omega (arith, length-append (client_frame k) (stream ms (client_frame m)))),
    )
