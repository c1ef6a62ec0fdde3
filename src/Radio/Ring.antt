-- ===== src/Radio/Ring.antt =====
-- The ring of chunks between the broadcaster and the senders.
use caligo_engine.Base.{
  ℕ, ◌+◌, ◌%◌, ◌<◌, ◌≡◌, ◌≢◌, ◌↔◌, refl, ◌∙◌, Bool, true, false, none, some, List, [], ◌∷◌, length,
  take, drop, get_or, ◌==◌, ==_iff, if◌then◌else◌, arith, length-set, get_or-set_self, take-append,
}
use caligo_engine.Radio.{
  slots, RingBuffer, next_index, copy_into, broadcast, Answers, Sender, Effect, has_processed,
  sender_round, send_all, chunk_header,
}

-- 64 buffers and sizes, and an index among them.
pub record IsRing (r : RingBuffer) : Type 0 where
  pub all_buffers : length r.buffers ≡ slots
  pub all_sizes : length r.sizes ≡ slots
  pub inside : r.write_index < slots

pub broadcast-IsRing : (chunk : List ℕ) (r : RingBuffer) → IsRing r → IsRing (broadcast chunk r)
unfolding broadcast
broadcast-IsRing chunk r v = record {
  all_buffers = length-set r.buffers (next_index r.write_index) _ ∙ v.all_buffers;
  all_sizes = length-set r.sizes (next_index r.write_index) _ ∙ v.all_sizes;
  inside = omega arith;
}

take-copy_into : (bytes buffer : List ℕ) → take (length bytes) (copy_into bytes buffer) ≡ bytes
unfolding copy_into
take-copy_into bytes buffer = take-append bytes (drop (length bytes) buffer)

-- From a ring of 64 slots, a sender that has not handled the slot of the chunk broadcast last, and
-- sends before the next broadcast, sends that chunk with its size to its listeners, and counts its
-- slot as handled.
pub sender_round-broadcast :
    (answers : ℕ → Answers) (chunk : List ℕ) (r : RingBuffer) (s : Sender)
    → IsRing r
    → has_processed s.last_processed (next_index r.write_index) ≡ false
    → sender_round answers (broadcast chunk r) (broadcast chunk r) s ≡ (
        let i = next_index r.write_index in
        let (kept, effects) = send_all answers 0 i (chunk_header (length chunk)) chunk s.clients in
        some (record { last_processed = some i; clients = kept }, effects))
unfolding sender_round broadcast
sender_round-broadcast answers chunk r s v new = rw (
  new,
  get_or-set_self r.sizes (next_index r.write_index) (length chunk) 0 (omega (arith, v.all_sizes)),
  get_or-set_self r.buffers (next_index r.write_index)
      (copy_into chunk (get_or r.buffers (next_index r.write_index) [])) []
      (omega (arith, v.all_buffers)),
  take-copy_into chunk (get_or r.buffers (next_index r.write_index) []),
)

unfoldable pub broadcasts : List (List ℕ) → RingBuffer → RingBuffer
broadcasts [] r = r
broadcasts (chunk ∷ chunks) r = broadcasts chunks (broadcast chunk r)

write_index-broadcasts :
    (chunks : List (List ℕ)) (r : RingBuffer)
    → (broadcasts chunks r).write_index % slots ≡ (r.write_index + length chunks) % slots
unfolding broadcasts broadcast
write_index-broadcasts [] r = omega arith
write_index-broadcasts (chunk ∷ chunks) r =
    omega (arith, write_index-broadcasts chunks (broadcast chunk r))

broadcasts-IsRing :
    (chunks : List (List ℕ)) (r : RingBuffer) → IsRing r → IsRing (broadcasts chunks r)
unfolding broadcasts
broadcasts-IsRing [] r v = v
broadcasts-IsRing (chunk ∷ chunks) r v =
    broadcasts-IsRing chunks (broadcast chunk r) (broadcast-IsRing chunk r v)

-- A sender that has handled the current slot of a ring of 64 slots waits after any number of further
-- broadcasts exactly if that number is a multiple of 64, though there is new data after the first.
pub sender_round_waits :
    (answers : ℕ → Answers) (chunks : List (List ℕ)) (r later : RingBuffer) (s : Sender)
    → IsRing r
    → s.last_processed ≡ some r.write_index
    → (sender_round answers (broadcasts chunks r) later s ≡ none) ↔ (length chunks % slots ≡ 0)
unfolding sender_round has_processed
sender_round_waits answers chunks r later s v handled = rw handled (
    waits (r.write_index == (broadcasts chunks r).write_index) _ (
      back (length chunks) (write_index-broadcasts chunks r) (broadcasts-IsRing chunks r v).inside
        v.inside))
  where
    back :
        {i j : ℕ} (n : ℕ)
        → j % slots ≡ (i + n) % slots
        → j < slots
        → i < slots
        → (n % slots ≡ 0) ↔ ((i == j) ≡ true)
    back {i} {j} n e h k = (
      λ z. (==_iff i j).1 (omega (arith, e, h, k, z)),
      λ t. let same = (==_iff i j).0 t in omega (arith, e, h, k, same),
    )

    some_not_none : {x : Sender × List Effect} → some x ≢ none
    some_not_none e = cc

    apart : false ≢ true
    apart e = cc

    waits :
        (b : Bool) (x : Sender × List Effect) {P : Type 0}
        → (P ↔ (b ≡ true))
        → ((if b then none else some x) ≡ none) ↔ P
    waits true x p = (λ _. p.1 refl, λ _. refl)
    waits false x p = (λ e. absurd (some_not_none e), λ h. absurd (apart (p.0 h)))
