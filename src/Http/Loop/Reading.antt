-- ===== src/Http/Loop/Reading.antt =====
-- The loop that reads a request: pieces in any number and of any size come to the same request.
use caligo_engine.Base.{
  ◌≢◌, subst, ℕ, zero, suc, ◌-◌, ◌<◌, ◌≡◌, refl, sym, ap, ◌∙◌, Bool, true, false, Option, none,
  some, List, [], ◌∷◌, ◌++◌, map, length, take, lt→ltb, if◌then◌else◌, arith, is_some, append_assoc,
  append-nil, length-append, take_all, ◌==◌, Bool-cases, inl, inr,
}
use mathlib.Core.Option
use caligo_engine.Base.Text.{is_prefix, find_sub, contains, c_str}
use caligo_engine.Http.Loop.{
  buffer_size, ClientState, Received, received, Round, goes_on, stops, queues, header_end, take_in,
  receive, next_round, read_loop,
}

abbrev pub concat : List (List ℕ) → List ℕ
concat [] = []
concat (s ∷ pieces) = s ++ concat pieces

-- No piece is empty.
abbrev pub AreSome : List (List ℕ) → Type 0
AreSome [] = Unit
AreSome (s ∷ pieces) = (0 < length s) × AreSome pieces

-- Whether the buffer holds an empty line.
abbrev pub ended : List ℕ → Bool
ended buffer = contains header_end (c_str buffer)

is_prefix-longer : (p s t : List ℕ) → is_prefix p s ≡ true → is_prefix p (s ++ t) ≡ true
unfolding is_prefix
is_prefix-longer [] s t h = refl
is_prefix-longer (c ∷ p) [] t h = cc
is_prefix-longer (c ∷ p) (d ∷ s) t h = ground (arith, is_prefix-longer p s t)

is_some-map : (o : Option ℕ) → is_some (Option.map suc o) ≡ is_some o
is_some-map none = refl
is_some-map (some n) = refl

contains-cons : (p s : List ℕ) (c : ℕ) → contains p s ≡ true → contains p (c ∷ s) ≡ true
unfolding contains find_sub
contains-cons p s c h = elim (Bool-cases (is_prefix p (c ∷ s))) [
  | inl e ↦ rw (e, contains) refl
  | inr e ↦ rw (e, contains, is_some-map (find_sub p s)) h
]

contains-is_prefix : (p s : List ℕ) → is_prefix p s ≡ true → contains p s ≡ true
unfolding contains find_sub
contains-is_prefix p [] h = rw h refl
contains-is_prefix p (c ∷ s) h = rw h refl

contains_nil : (p : List ℕ) → contains p [] ≡ true → is_prefix p [] ≡ true
unfolding contains find_sub is_prefix
contains_nil [] h = refl
contains_nil (c ∷ p) h = h

contains_tail :
    (p s : List ℕ) (c : ℕ)
    → is_prefix p (c ∷ s) ≡ false
    → contains p (c ∷ s) ≡ true
    → contains p s ≡ true
unfolding contains find_sub
contains_tail p s c e h = sym (rw e (is_some-map (find_sub p s))) ∙ h

contains-longer : (p s t : List ℕ) → contains p s ≡ true → contains p (s ++ t) ≡ true
contains-longer p [] t h = contains-is_prefix p t (is_prefix-longer p [] t (contains_nil p h))
contains-longer p (c ∷ s) t h = elim (Bool-cases (is_prefix p (c ∷ s))) [
  | inl e ↦ contains-is_prefix p (c ∷ s ++ t) (is_prefix-longer p (c ∷ s) t e)
  | inr e ↦ contains-cons p (s ++ t) c (contains-longer p s t (contains_tail p s c e h))
]

c_str-append : (s t : List ℕ) → (u : List ℕ) × (c_str (s ++ t) ≡ c_str s ++ u)
unfolding c_str
c_str-append [] t = (c_str t, refl)
c_str-append (c ∷ s) t = elim (Bool-cases (c == 0)) [
  | inl e ↦ rw e ([], refl)
  | inr e ↦ let (u, f) = c_str-append s t in rw e (u, ap (λ r. c ∷ r) f)
]

ended-longer : (s t : List ℕ) → ended s ≡ true → ended (s ++ t) ≡ true
ended-longer s t h =
    let (u, e) = c_str-append s t in rw e (contains-longer header_end (c_str s) u h)

-- What the loop has done with pieces that it was given: all are in the buffer, or the buffer was ended
-- by one of them.
abbrev pub IsRead : ClientState → List (List ℕ) → Round → Type 0
IsRead client pieces round =
    (ended (client.buffer ++ concat pieces) ≡ false
      → round ≡ stops (record client { buffer = client.buffer ++ concat pieces }))
    × (ended (client.buffer ++ concat pieces) ≡ true
        → (n : ℕ) × (round
            ≡ queues (record client { buffer = client.buffer ++ concat (take n pieces) }))
          × (ended (client.buffer ++ concat (take n pieces)) ≡ true)
          × ((m : ℕ) → m < n → ended (client.buffer ++ concat (take m pieces)) ≡ false))

read_loop-piece :
    (b : ℕ) (s : List ℕ) (answers : List Received) (client : ClientState)
    → length (client.buffer ++ b ∷ s) < buffer_size - 1
    → read_loop (received (b ∷ s) ∷ answers) client ≡ (
        let client' : ClientState = record client { buffer = client.buffer ++ b ∷ s } in
        if ended (client.buffer ++ b ∷ s) then queues client' else read_loop answers client')
unfolding read_loop receive take_in next_round
read_loop-piece b s answers client short =
    let room : length client.buffer < buffer_size - 1 =
      omega (arith, length-append client.buffer (b ∷ s)) in
    rw
      (
        lt→ltb (length client.buffer) (buffer_size - 1) room,
        take_all (buffer_size - length client.buffer - 1) (b ∷ s)
            (omega (arith, length-append client.buffer (b ∷ s))),
      )
      (chosen (ended (client.buffer ++ b ∷ s)) (record client { buffer = client.buffer ++ b ∷ s }))
  where
    chosen :
        (e : Bool) (c : ClientState)
        → next_round (read_loop answers) (if e then queues c else goes_on c)
          ≡ (if e then queues c else read_loop answers c)
    chosen true c = refl
    chosen false c = refl

IsRead-piece :
    (b : ℕ) (s : List ℕ) (pieces : List (List ℕ)) (client : ClientState) (rest : Round)
    → ended client.buffer ≡ false
    → (ended (client.buffer ++ b ∷ s) ≡ false
        → IsRead (record client { buffer = client.buffer ++ b ∷ s }) pieces rest)
    → IsRead client ((b ∷ s) ∷ pieces) (
        if ended (client.buffer ++ b ∷ s)
        then queues (record client { buffer = client.buffer ++ b ∷ s })
        else rest)
IsRead-piece b s pieces client rest before f = elim (Bool-cases (ended (client.buffer ++ b ∷ s))) [
  | inl e ↦ rw e (
    λ h. absurd (
        apart
          (sym (ap ended (append_assoc client.buffer (b ∷ s) (concat pieces)))
            ∙ ended-longer (client.buffer ++ b ∷ s) (concat pieces) e)
          h),
    λ _. (1, rw (append-nil s) refl, rw (append-nil s) e, λ m h. none_before m h),
  )
  | inr e ↦ rw e (later (f e))
]
  where
    apart : {x : Bool} → x ≡ true → x ≢ false
    apart h k = cc

    none_before :
        (m : ℕ) → m < 1 → ended (client.buffer ++ concat (take m ((b ∷ s) ∷ pieces))) ≡ false
    none_before zero h = rw (append-nil client.buffer) before
    none_before (suc m) h = absurd (omega arith)

    earlier :
        (n m : ℕ)
        → ((k : ℕ) → k < n → ended ((client.buffer ++ b ∷ s) ++ concat (take k pieces)) ≡ false)
        → m < suc n
        → ended (client.buffer ++ concat (take m ((b ∷ s) ∷ pieces))) ≡ false
    earlier n zero first h = rw (append-nil client.buffer) before
    earlier n (suc m) first h =
        sym (ap ended (append_assoc client.buffer (b ∷ s) (concat (take m pieces))))
        ∙ first m (omega (arith, h))

    later :
        IsRead (record client { buffer = client.buffer ++ b ∷ s }) pieces rest
        → IsRead client ((b ∷ s) ∷ pieces) rest
    later (p, q) =
        let e = append_assoc client.buffer (b ∷ s) (concat pieces) in
        (
          λ h. p (ap ended e ∙ h) ∙ ap (λ (r : List ℕ). stops (record client { buffer = r })) e,
          λ h.
              let (n, x, y, first) = q (ap ended e ∙ h) in
              let e' = append_assoc client.buffer (b ∷ s) (concat (take n pieces)) in
              (
                suc n,
                x ∙ ap (λ (r : List ℕ). queues (record client { buffer = r })) e',
                sym (ap ended e') ∙ y,
                λ m k. earlier n m first k,
              ),
        )

-- A request that arrives in pieces, in all short enough for the buffer, is queued exactly if it has an
-- empty line, at the first piece that completes one; otherwise the loop ends with all in the buffer.
pub read_loop-IsRead :
    (pieces : List (List ℕ)) (client : ClientState)
    → AreSome pieces
    → length (client.buffer ++ concat pieces) < buffer_size - 1
    → ended client.buffer ≡ false
    → IsRead client pieces (read_loop (map received pieces) client)
unfolding read_loop
read_loop-IsRead [] client some_each short before =
    rw (append-nil client.buffer) (λ _. refl, λ h. absurd (apart before h))
  where
    apart : {x : Bool} → x ≡ false → x ≢ true
    apart h k = cc
read_loop-IsRead ([] ∷ pieces) client some_each short before = absurd (omega (arith, some_each.0))
read_loop-IsRead ((b ∷ s) ∷ pieces) client some_each short before =
    let e = append_assoc client.buffer (b ∷ s) (concat pieces) in
    let room : length (client.buffer ++ b ∷ s) < buffer_size - 1 =
      omega (arith, length-append (client.buffer ++ b ∷ s) (concat pieces), ap length e, short) in
    rw (read_loop-piece b s (map received pieces) client room) (
      IsRead-piece b s pieces client _ before (
        read_loop-IsRead pieces (record client { buffer = client.buffer ++ b ∷ s }) some_each.1
          (subst (λ (r : List ℕ). length r < buffer_size - 1) (sym e) short)))
