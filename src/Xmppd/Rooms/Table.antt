-- ===== src/Xmppd/Rooms/Table.antt =====
-- The room table keeps its bounds and names each room once.
use caligo_engine.Base.{
  ℕ, zero, suc, ◌≤◌, ◌<◌, ◌≡◌, refl, ◌∙◌, true, false, ◌||◌, List, [], ◌∷◌, ◌++◌, length, take, ltb,
  if◌then◌else◌, arith, length-append, length-take, All, All-snoc, Bool-cases, inl, inr, take_all,
  lt→ltb, ltb→lt,
}
use caligo_engine.Base.Text.{fgets, str_eq, str_eq_iff}
use caligo_engine.Xmppd.Rooms.{
  max_rooms, max_name, is_known, add_room_to_memory, add_line, load_loop, load_persistent_rooms,
  strip_eol,
}

-- No name stands behind itself.
abbrev pub AreDistinct : List (List ℕ) → Type 0
AreDistinct [] = Unit {0}
AreDistinct (r ∷ rooms) = (is_known r rooms ≡ false) × AreDistinct rooms

pub record IsTable (rooms : List (List ℕ)) : Type 0 where
  pub few : length rooms ≤ max_rooms
  pub short : All (λ (r : List ℕ). length r ≤ max_name) rooms

is_known-append :
    (n : List ℕ) (rooms more : List (List ℕ))
    → is_known n (rooms ++ more) ≡ (is_known n rooms || is_known n more)
unfolding is_known
is_known-append n [] more = refl
is_known-append n (r ∷ rooms) more = ground (arith, is_known-append n rooms more)

-- From a table of at most 64 rooms with names of at most 63 characters, adding any name gives such a
-- table.
pub add_room_to_memory-IsTable :
    (n : List ℕ) (rooms : List (List ℕ)) → IsTable rooms → IsTable (add_room_to_memory n rooms).0
unfolding add_room_to_memory
add_room_to_memory-IsTable n rooms v = elim (Bool-cases (is_known n rooms)) [
  | inl old ↦ rw old v
  | inr new ↦ elim (Bool-cases (ltb (length rooms) max_rooms)) [
    | inr full ↦ rw (new, full) v
    | inl room ↦
        rw (new, room)
          (record {
            few = omega (arith, length-append rooms (take max_name n ∷ []), ltb→lt _ _ room);
            short =
                All-snoc (λ (r : List ℕ). length r ≤ max_name) (take max_name n)
                  (omega (arith, length-take max_name n)) rooms v.short;
          })
  ]
]

str_eq_comm : (s t : List ℕ) → str_eq s t ≡ str_eq t s
str_eq_comm s t = ground (arith, str_eq_iff s t, str_eq_iff t s)

-- A known name is not made known anew.
absorbs :
    (n m : List ℕ) (rooms : List (List ℕ))
    → is_known n rooms ≡ true
    → is_known m rooms ≡ (is_known m rooms || str_eq n m)
absorbs n m rooms old = elim (Bool-cases (str_eq n m)) [
  | inr e ↦ rw e (ground arith)
  | inl e ↦
      let same : n ≡ m = (str_eq_iff n m).0 e in
      let known : is_known m rooms ≡ true = rw (← same) old in rw (e, known)
]

-- With fewer than 64 rooms, after adding a name of at most 63 characters a name is known exactly if
-- it was or is the one added, and the result is whether the added one was not known.
pub add_room_to_memory-is_known :
    (n m : List ℕ) (rooms : List (List ℕ))
    → length n ≤ max_name
    → length rooms < max_rooms
    → (is_known m (add_room_to_memory n rooms).0 ≡ (is_known m rooms || str_eq n m))
      × ((add_room_to_memory n rooms).1 ≡ (if is_known n rooms then false else true))
unfolding add_room_to_memory
add_room_to_memory-is_known n m rooms short room = elim (Bool-cases (is_known n rooms)) [
  | inl old ↦ rw old (absorbs n m rooms old, refl)
  | inr new ↦
      rw (new, lt→ltb _ _ room, take_all max_name n short, is_known-append)
        (unfold is_known in ground arith, refl)
]

AreDistinct-append :
    (n : List ℕ) (rooms : List (List ℕ))
    → is_known n rooms ≡ false
    → AreDistinct rooms
    → AreDistinct (rooms ++ (n ∷ []))
unfolding is_known
AreDistinct-append n [] h d = (refl, tt)
AreDistinct-append n (r ∷ rooms) h d =
    let rest = AreDistinct-append n rooms (ground arith) d.1 in
    (
      is_known-append r rooms (n ∷ [])
          ∙ rw (d.0, str_eq_comm n r) (unfold is_known in ground arith),
      rest,
    )

-- Adding a name of at most 63 characters to a table without duplicates gives one without.
pub add_room_to_memory-AreDistinct :
    (n : List ℕ) (rooms : List (List ℕ))
    → length n ≤ max_name
    → AreDistinct rooms
    → AreDistinct (add_room_to_memory n rooms).0
unfolding add_room_to_memory
add_room_to_memory-AreDistinct n rooms short d = elim (Bool-cases (is_known n rooms)) [
  | inl old ↦ rw old d
  | inr new ↦ elim (Bool-cases (ltb (length rooms) max_rooms)) [
    | inr full ↦ rw (new, full) d
    | inl room ↦ rw (new, room, take_all max_name n short) (AreDistinct-append n rooms new d)
  ]
]

add_line-IsTable :
    (line : List ℕ) (rooms : List (List ℕ)) → IsTable rooms → IsTable (add_line line rooms)
unfolding add_line
add_line-IsTable line rooms v = elim (Bool-cases (ltb 0 (length line))) [
  | inl e ↦ rw e (add_room_to_memory-IsTable line rooms v)
  | inr e ↦ rw e v
]

load_loop-IsTable :
    (fuel : ℕ) (file : List ℕ) (rooms : List (List ℕ))
    → IsTable rooms
    → IsTable (load_loop fuel file rooms)
unfolding load_loop
load_loop-IsTable zero file rooms v = v
load_loop-IsTable (suc fuel) [] rooms v = v
load_loop-IsTable (suc fuel) (c ∷ file) rooms v =
    load_loop-IsTable fuel (fgets 127 (c ∷ file)).1 _
      (add_line-IsTable (strip_eol (fgets 127 (c ∷ file)).0) rooms v)

-- Whatever the file holds, the table that is loaded has at most 64 rooms, with names of at most 63
-- characters.
pub load_persistent_rooms-IsTable : (file : List ℕ) → IsTable (load_persistent_rooms file [])
unfolding load_persistent_rooms
load_persistent_rooms-IsTable file =
    load_loop-IsTable (length file) file [] (record { few = omega arith; short = tt })
