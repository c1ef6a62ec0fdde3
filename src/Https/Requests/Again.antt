-- ===== src/Https/Requests/Again.antt =====
-- A second request on a connection whose first response had to wait.
use caligo_engine.Base.{
  ℕ, suc, ◌+◌, ◌-◌, ◌<◌, ◌≡◌, refl, sym, ap, ◌∙◌, Bool, true, false, Option, none, some, List, [],
  ◌∷◌, ◌++◌, length, take, leb, is_some, if◌then◌else◌, arith, take_all, lt→ltb, lt→leb_false,
  length-append, Bool-cases, inl, inr,
}
use mathlib.Core.Option
use caligo_engine.Base.Text.{Without, is_prefix, find_sub, contains, c_str}
use caligo_engine.Http.Work.{requested_path}
use caligo_engine.Http.Work.Longer.{requested_path-more}
use caligo_engine.Https.Outbox.{Watch}
use caligo_engine.Https.Events.{
  buffer_size, read_request, Client, kept, queued, queued_freed, watched, Received, received,
  header_end, take_in, check_size, read_loop, Answers, on_state, on_readable, is_waiting,
  after_work,
}

is_prefix-more : (p s t : List ℕ) → is_prefix p s ≡ true → is_prefix p (s ++ t) ≡ true
unfolding is_prefix
is_prefix-more [] s t h = refl
is_prefix-more (c ∷ p) [] t h = cc
is_prefix-more (c ∷ p) (d ∷ s) t h = ground (arith, is_prefix-more p s t)

is_some-map : (o : Option ℕ) → is_some (Option.map suc o) ≡ is_some o
is_some-map none = refl
is_some-map (some i) = refl

contains-nil : (c : ℕ) (p : List ℕ) → contains (c ∷ p) [] ≡ true → ⊥
unfolding contains find_sub is_prefix
contains-nil c p h = cc

contains-more :
    (c : ℕ) (p s t : List ℕ) → contains (c ∷ p) s ≡ true → contains (c ∷ p) (s ++ t) ≡ true
unfolding contains find_sub
contains-more a p [] t h = absurd (contains-nil a p h)
contains-more a p (c ∷ s) t h =
    by_case (a ∷ p) (is_prefix (a ∷ p) (c ∷ s)) refl h (contains-more a p s t)
  where
    by_case :
        (p : List ℕ) (b : Bool)
        → is_prefix p (c ∷ s) ≡ b
        → is_some (if b then some 0 else Option.map suc (find_sub p s)) ≡ true
        → (is_some (find_sub p s) ≡ true → is_some (find_sub p (s ++ t)) ≡ true)
        → is_some
            (if is_prefix p (c ∷ (s ++ t)) then some 0 else Option.map suc (find_sub p (s ++ t)))
          ≡ true
    by_case p true e h rest = rw (is_prefix-more p (c ∷ s) t e) refl
    by_case p false e h rest = elim (Bool-cases (is_prefix p (c ∷ (s ++ t)))) [
      | inl e' ↦ rw e' refl
      | inr e' ↦ rw e' (is_some-map _ ∙ rest (sym (is_some-map _) ∙ h))
    ]

c_str-append : (s t : List ℕ) → Without 0 s → c_str (s ++ t) ≡ s ++ c_str t
unfolding c_str
c_str-append [] t h = refl
c_str-append (c ∷ s) t h = ground (arith, c_str-append s t h.1)

-- A client that reads a request, has one whole, and gets more that leaves room in its buffer.
read_loop-more :
    (registers : Bool) (b : ℕ) (bytes : List ℕ) (rounds : List Received) (c : Client)
    → length c.buffer + length (b ∷ bytes) < buffer_size - 1
    → contains header_end c.buffer ≡ true
    → Without 0 c.buffer
    → check_size (read_loop registers (received b bytes ∷ rounds) c)
      ≡ queued (take_in (b ∷ bytes) c)
unfolding read_loop check_size take_in
read_loop-more registers b bytes rounds c room whole clean =
    let short = lt→ltb (length c.buffer) (buffer_size - 1) (omega (arith, room)) in
    let all = take_all (buffer_size - length c.buffer - 1) (b ∷ bytes) (omega (arith, room)) in
    let more : contains header_end (c.buffer ++ c_str (b ∷ bytes)) ≡ true =
      contains-more 13 (10 ∷ 13 ∷ 10 ∷ []) c.buffer (c_str (b ∷ bytes)) whole in
    let ended : contains header_end (c_str (c.buffer ++ (b ∷ bytes))) ≡ true =
      ap (contains header_end) (c_str-append c.buffer (b ∷ bytes) clean) ∙ more in
    let fits : leb (buffer_size - 1) (length (c.buffer ++ (b ∷ bytes))) ≡ false =
      lt→leb_false _ _ (omega (arith, room, length-append c.buffer (b ∷ bytes))) in
    ap
      (λ x.
        let c' = take_in (take (buffer_size - length c.buffer - 1) (b ∷ bytes)) c in
        check_size (
          if x
          then if contains header_end (c_str c'.buffer)
            then queued c'
            else read_loop registers rounds c'
          else kept c))
      short
    ∙ (ap
          (λ l. check_size (
            if contains header_end (c_str (take_in l c).buffer)
            then queued (take_in l c)
            else read_loop registers rounds (take_in l c)))
          all
        ∙ (ap
              (λ x. check_size (
                if x
                then queued (take_in (b ∷ bytes) c)
                else read_loop registers rounds (take_in (b ∷ bytes) c)))
              ended
            ∙ ap (λ x. if x then queued_freed else queued (take_in (b ∷ bytes) c)) fits))

-- A response that has to wait leaves the request in the buffer: whatever comes next on the connection,
-- if it leaves room in the buffer, is put behind that request, and the client is queued again with the
-- path of the request that was answered before.
pub after_work_again :
    (c : Client) (a : Answers) (b : ℕ) (bytes : List ℕ) (rounds : List Received) (path : List ℕ)
    → is_waiting c ≡ true
    → c.state ≡ read_request
    → a.reads ≡ received b bytes ∷ rounds
    → length c.buffer + length (b ∷ bytes) < buffer_size - 1
    → contains header_end c.buffer ≡ true
    → Without 0 c.buffer
    → requested_path c.buffer ≡ some path
    → (c' c2 : Client) × (after_work true c ≡ kept c')
      × (on_readable a c' ≡ queued c2)
      × (c2.buffer ≡ c.buffer ++ b ∷ bytes)
      × (requested_path (c_str c2.buffer) ≡ some path)
unfolding after_work on_readable on_state watched take_in
after_work_again c a b bytes rounds path waits reading reads room whole clean asked =
    let watch : Watch = record { for_read = true; for_write = true; once = true } in
    let c' : Client = watched watch c in
    (
      c',
      take_in (b ∷ bytes) c',
      ap
          (λ x.
            if x
            then kept c'
            else kept (
                watched (record { for_read = true; for_write = false; once = true })
                  (record c { state = read_request; buffer = [] })))
          waits,
      ap (λ s. on_state s a c') reading
          ∙ (ap (λ l. check_size (read_loop a.registers l c')) reads
              ∙ read_loop-more a.registers b bytes rounds c' room whole clean),
      refl,
      ap requested_path (c_str-append c.buffer (b ∷ bytes) clean)
          ∙ requested_path-more c.buffer (c_str (b ∷ bytes)) path asked,
    )
