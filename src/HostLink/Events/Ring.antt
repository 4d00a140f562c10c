-- ===== src/HostLink/Events/Ring.antt =====
-- The ring of wiiu_console/src/net.c is a bounded queue: its refinement.
use capture2cloud.Base.{
  ℕ, zero, suc, ◌+◌, ◌-◌, ◌%◌, ◌≤◌, ◌<◌, List, [], ◌∷◌, ◌++◌, false, ◌≡◌, ◌≢◌, refl, sym, ap, ap₂,
  ◌∙◌, ltb, leb, ◌==◌, if◌then◌else◌, Bool-cases, inl, inr, leb→le, ==_iff, u8, get_or, set, length,
  length-set, drop, get_or-set_self, get_or-set_ne, arith,
}
use mathlib.Core.List.{head?}
use capture2cloud.Wire.{msg_audio}
use capture2cloud.HostLink.Events.{
  AsyncEvent, no_event, AsyncState, oldest_dropped, event_written, async_event_slots,
  async_event_payload_max, async_queue_event, async_pop_event,
}

-- So many events from a place on, round the ring.
collect : List AsyncEvent → ℕ → ℕ → List AsyncEvent
collect events zero i = []
collect events (suc n) i = get_or events (i % async_event_slots) no_event ∷ collect events n (i + 1)

-- The events that wait, the oldest first.
unfoldable pub waiting_events : AsyncState → List AsyncEvent
unfolding collect
waiting_events s = collect s.events s.count s.read

pub record IsRing (s : AsyncState) : Type 0 where
  pub slots : length s.events ≡ async_event_slots
  pub read_in : s.read < async_event_slots
  pub count_in : s.count ≤ async_event_slots
  pub write_at_end : s.write ≡ (s.read + s.count) % async_event_slots

-- The queue as its users see it. A full queue loses its oldest event, but to sound it stays shut.
pub enqueue : AsyncEvent → List AsyncEvent → List AsyncEvent
enqueue event queue =
    if ltb async_event_payload_max (length event.payload)
    then queue
    else if leb async_event_slots (length queue)
    then if event.type == msg_audio then queue else drop 1 queue ++ event ∷ []
    else queue ++ event ∷ []

length-collect : (events : List AsyncEvent) (n i : ℕ) → length (collect events n i) ≡ n
unfolding collect
length-collect events zero i = refl
length-collect events (suc n) i = ap suc (length-collect events n (i + 1))

length-waiting_events : (s : AsyncState) → length (waiting_events s) ≡ s.count
unfolding waiting_events
length-waiting_events s = length-collect s.events s.count s.read

leb-false : (a b : ℕ) → leb a b ≡ false → b < a
leb-false a b h = ground arith

not_zero : (n : ℕ) → (n == 0) ≡ false → 0 < n
not_zero n e = ground arith

u8_id : (n : ℕ) → n < 256 → u8 n ≡ n
u8_id n h = omega arith

nil_of : (xs : List AsyncEvent) → length xs ≡ 0 → xs ≡ []
nil_of [] e = refl
nil_of (x ∷ xs) e = absurd (omega arith)

collect_cong :
    (events : List AsyncEvent) (n i j : ℕ)
    → i % async_event_slots ≡ j % async_event_slots
    → collect events n i ≡ collect events n j
unfolding collect
collect_cong events zero i j h = refl
collect_cong events (suc n) i j h =
    ap₂ (λ k t. get_or events k no_event ∷ t) h
      (collect_cong events n (i + 1) (j + 1) (omega arith))

collect_last :
    (events : List AsyncEvent) (n i : ℕ)
    → collect events (suc n) i
      ≡ collect events n i ++ get_or events ((i + n) % async_event_slots) no_event ∷ []
unfolding collect
collect_last events zero i =
    ap (λ k. get_or events (k % async_event_slots) no_event ∷ []) {x = i} {y = i + 0} (omega arith)
collect_last events (suc n) i =
    ap (λ t. get_or events (i % async_event_slots) no_event ∷ t)
      (collect_last events n (i + 1)
        ∙ ap (λ k. collect events n (i + 1) ++ get_or events (k % async_event_slots) no_event ∷ [])
            {x = i + 1 + n} {y = i + suc n} (omega arith))

-- A write outside of the events that wait leaves them.
collect-set :
    (events : List AsyncEvent) (event : AsyncEvent) (w n i : ℕ)
    → ((k : ℕ) → k < n → w ≢ (i + k) % async_event_slots)
    → collect (set events w event) n i ≡ collect events n i
unfolding collect
collect-set events event w zero i h = refl
collect-set events event w (suc n) i h =
    ap₂ ◌∷◌
      (get_or-set_ne events w (i % async_event_slots) event no_event
        (λ e. h 0 (omega arith) (e ∙ omega arith)))
      (collect-set events event w n (i + 1) (λ k lt e. h (suc k) (omega arith) (e ∙ omega arith)))

-- A new event stands behind the others, where there is a free slot.
waiting_events-event_written :
    (s : AsyncState) (event : AsyncEvent)
    → IsRing s
    → s.count < async_event_slots
    → waiting_events (event_written s event) ≡ waiting_events s ++ event ∷ []
unfolding waiting_events
waiting_events-event_written s event r lt =
    let es = set s.events s.write event in
    ap (λ n. collect es n s.read) {x = s.count + 1} {y = suc s.count} (omega arith)
    ∙ collect_last es s.count s.read
    ∙ ap₂ (λ t e. t ++ e ∷ [])
        (collect-set s.events event s.write s.count s.read
          (λ k less e. omega (arith, r.write_at_end, r.read_in, e)))
        (ap (λ k. get_or es k no_event) (sym r.write_at_end)
          ∙ get_or-set_self s.events s.write event no_event
              (omega (arith, r.slots, r.write_at_end)))

event_written-IsRing :
    (s : AsyncState) (event : AsyncEvent)
    → IsRing s
    → s.count < async_event_slots
    → IsRing (event_written s event)
event_written-IsRing s event r lt = record {
  slots = length-set s.events s.write event ∙ r.slots;
  read_in = r.read_in;
  count_in = omega arith;
  write_at_end = omega (arith, r.write_at_end, r.read_in);
}

oldest_dropped-IsRing : (s : AsyncState) → IsRing s → 0 < s.count → IsRing (oldest_dropped s)
oldest_dropped-IsRing s r some_left = record {
  slots = r.slots;
  read_in = omega arith;
  count_in = omega (arith, r.count_in);
  write_at_end = omega (arith, r.write_at_end, r.read_in, r.count_in);
}

waiting_events-oldest_dropped :
    (s : AsyncState)
    → IsRing s
    → 0 < s.count
    → waiting_events s ≡ get_or s.events s.read no_event ∷ waiting_events (oldest_dropped s)
unfolding waiting_events collect
waiting_events-oldest_dropped s r some_left =
    ap (λ n. collect s.events n s.read) {x = s.count} {y = suc (s.count - 1)} (omega arith)
    ∙ ap₂ (λ k t. get_or s.events k no_event ∷ t) {x = s.read % async_event_slots} {y = s.read}
        (omega (arith, r.read_in))
        (collect_cong s.events (s.count - 1) (s.read + 1) ((s.read + 1) % async_event_slots)
          (omega arith))

-- Queueing an event whose type is a byte does to the events that wait what `enqueue` does, and the
-- ring stays a ring.
pub async_queue_event-enqueue :
    (type flags : ℕ) (payload : List ℕ) (s : AsyncState)
    → type < 256
    → IsRing s
    → let s' = async_queue_event type flags payload s in
      (waiting_events s'
        ≡ enqueue (record { type = type; flags = flags; payload = payload }) (waiting_events s))
      × IsRing s'
unfolding async_queue_event enqueue
async_queue_event-enqueue type flags payload s byte r =
    let event : AsyncEvent = record { type = type; flags = flags; payload = payload } in
    rw (length-waiting_events s, u8_id type byte)
      (elim (Bool-cases (ltb async_event_payload_max (length payload))) [
        | inl long ↦ rw long (refl, r)
        | inr short ↦ rw short (elim (Bool-cases (leb async_event_slots s.count)) [
          | inl full ↦ rw full (elim (Bool-cases (type == msg_audio)) [
            | inl sound ↦ rw sound (refl, r)
            | inr other ↦
                let filled : async_event_slots ≤ s.count = leb→le async_event_slots s.count full in
                let d = oldest_dropped-IsRing s r (omega arith) in
                rw other (
                  waiting_events-event_written (oldest_dropped s) event d
                        (omega (arith, r.count_in))
                      ∙ ap (λ t. drop 1 t ++ event ∷ [])
                          (sym (waiting_events-oldest_dropped s r (omega arith))),
                  event_written-IsRing (oldest_dropped s) event d (omega (arith, r.count_in)),
                )
          ])
          | inr free ↦
              let lt : s.count < async_event_slots = leb-false async_event_slots s.count free in
              rw free (waiting_events-event_written s event r lt, event_written-IsRing s event r lt)
        ])
      ])

-- Taking an event takes the one that waits longest, and there is none only where none waits.
pub async_pop_event-waiting :
    (s : AsyncState)
    → IsRing s
    → let r = async_pop_event s in
      (head? (waiting_events s) ≡ r.0)
      × (drop 1 (waiting_events s) ≡ waiting_events r.1)
      × IsRing r.1
unfolding async_pop_event
async_pop_event-waiting s r = elim (Bool-cases (s.count == 0)) [
  | inl none_left ↦
      let e : waiting_events s ≡ [] =
        nil_of (waiting_events s) (length-waiting_events s ∙ (==_iff s.count 0).0 none_left) in
      rw none_left (ap head? e, ap (drop 1) e ∙ sym e, r)
  | inr some_left ↦
      let pos : 0 < s.count = not_zero s.count some_left in
      let e = waiting_events-oldest_dropped s r pos in
      rw some_left (ap head? e, ap (drop 1) e, oldest_dropped-IsRing s r pos)
]
