-- ===== src/Xmppd/Stanza/Overflow.antt =====
-- When the texts built by strcat stay within their arrays.
use caligo_engine.Base.{
  ℕ, ◌+◌, ◌≤◌, ◌<◌, ◌≡◌, ◌↔◌, refl, none, some, List, [], ◌∷◌, ◌++◌, length, arith, length-append,
  lt→ltb, le→ltb_false,
}
use native.Mathlib.Decide.{dec_lt}
use caligo_engine.Base.Text.{codes}
use caligo_engine.Xmppd.Stanza.{strcat, append_items, room_list}

-- The summed length of texts.
abbrev pub total_length : List (List ℕ) → ℕ
total_length [] = 0
total_length (s ∷ ss) = length s + total_length ss

strcat_fits :
    (size : ℕ) (b s : List ℕ) → length b + length s < size → strcat size (some b) s ≡ some (b ++ s)
unfolding strcat
strcat_fits size b s h = rw (lt→ltb _ _ h)

strcat_overflows :
    (size : ℕ) (b s : List ℕ) → size ≤ length b + length s → strcat size (some b) s ≡ none
unfolding strcat
strcat_overflows size b s h = rw (le→ltb_false _ _ h)

append_none : (size : ℕ) (ss : List (List ℕ)) → append_items size none ss ≡ none
unfolding append_items strcat
append_none size [] = refl
append_none size (s ∷ ss) = append_none size ss

append_fits :
    (size : ℕ) (b : List ℕ) (ss : List (List ℕ))
    → length b + total_length ss < size
    → (out : List ℕ) × (append_items size (some b) ss ≡ some out)
      × (length out ≡ length b + total_length ss)
unfolding append_items
append_fits size b [] h = (b, refl, omega arith)
append_fits size b (s ∷ ss) h =
    let r = append_fits size (b ++ s) ss (omega (arith, length-append b s)) in
    (r.0, rw (strcat_fits size b s (omega arith)) r.1, omega (arith, r.2, length-append b s))

append_overflows :
    (size : ℕ) (b : List ℕ) (ss : List (List ℕ))
    → length b < size
    → size ≤ length b + total_length ss
    → append_items size (some b) ss ≡ none
unfolding append_items
append_overflows size b [] small h = absurd (omega arith)
append_overflows size b (s ∷ ss) small h = elim (dec_lt (length b + length s) size) [
  | yes fits ↦ rw (strcat_fits size b s fits) (
      append_overflows size (b ++ s) ss (omega (arith, length-append b s))
        (omega (arith, length-append b s)))
  | no over ↦ rw (strcat_overflows size b s (omega arith)) (append_none size ss)
]

absurd_some {ℓ} : {P : Type ℓ} {s : List ℕ} → some s ≡ none → P
absurd_some h = absurd (cc)

room_list_over :
    (items : List (List ℕ))
    → 4075 ≤ total_length items
    → Dec (10 + total_length items < 4096)
    → room_list items ≡ none
unfolding room_list
room_list_over items h (no over) =
    rw (append_overflows 4096 (codes "<roomlist>") items (omega arith) (omega arith))
      (unfold strcat in refl)
room_list_over items h (yes fits) =
    let r = append_fits 4096 (codes "<roomlist>") items (omega arith) in
    rw (r.1, strcat_overflows 4096 r.0 (codes "</roomlist>") (omega (arith, r.2)))

-- The text of broadcast_room_list runs over its array exactly if the items have 4075 characters or
-- more together.
pub room_list-overflow :
    (items : List (List ℕ)) → (room_list items ≡ none) ↔ (4075 ≤ total_length items)
unfolding room_list
room_list-overflow items = elim (dec_lt (total_length items) 4075) [
  | yes fits ↦
      let r = append_fits 4096 (codes "<roomlist>") items (omega arith) in
      (
        λ h.
            absurd_some
              (rw (r.1, strcat_fits 4096 r.0 (codes "</roomlist>") (omega (arith, r.2))) at h),
        λ h. absurd (omega arith),
      )
  | no over ↦
      (λ h. omega arith, λ h. room_list_over items h (dec_lt (10 + total_length items) 4096))
]

-- Items put together by strcat in the array of 3072 run over it exactly if they have 3072 characters
-- or more together.
pub directory_overflow :
    (items : List (List ℕ))
    → (append_items 3072 (some []) items ≡ none) ↔ (3072 ≤ total_length items)
directory_overflow items = elim (dec_lt (total_length items) 3072) [
  | yes fits ↦
      let r = append_fits 3072 [] items (omega arith) in
      (λ h. absurd_some (rw (r.1) at h), λ h. absurd (omega arith))
  | no over ↦ (λ h. omega arith, λ h. append_overflows 3072 [] items (omega arith) (omega arith))
]
