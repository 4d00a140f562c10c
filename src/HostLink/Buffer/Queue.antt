-- ===== src/HostLink/Buffer/Queue.antt =====
-- `fill_rx` and `consume` in wiiu_console/src/net.c read the stream in order and lose nothing.
use capture2cloud.Base.{
  ℕ, ◌+◌, ◌-◌, ◌≤◌, ◌<◌, min, List, [], ◌∷◌, ◌++◌, Bool, true, false, ◌≡◌, ◌⊎◌, inl, inr, refl, sym,
  ap, ◌∙◌, ◌==◌, if_cases, ==_iff, All, length, take, drop, length-take, length-drop,
  take-append-drop, drop-drop, drop-take, arith,
}
use mathlib.Core.List.{append_assoc}
use capture2cloud.HostLink.{Rx, contents, rx_limit}
use capture2cloud.HostLink.Buffer.{Ending, answer, make_room, received, fill_rx, consume}
use capture2cloud.HostLink.Buffer.Stream.{
  IsWithin, make_room-Same, make_room_free, make_room_full, contents-received, received-IsWithin,
}

-- What the buffer and the kernel hold is what they held together before.
pub record Keeps (rx : Rx) (queued : List ℕ) (r : Ending × Rx × List ℕ) : Type 0 where
  pub within : IsWithin r.1
  pub stream : contents r.1 ++ r.2 ≡ contents rx ++ queued

nil_of : (xs : List ℕ) → length xs ≡ 0 → xs ≡ []
nil_of [] e = refl
nil_of (x ∷ xs) e = absurd (omega arith)

answer_nil : (ending : Ending) (queued : List ℕ) → length queued ≡ 0 → answer ending queued ≡ ending
answer_nil ending queued e = ground arith

not_zero : (n : ℕ) → (n == 0) ≡ false → 0 < n
not_zero n e = ground arith

module _ (memory : ℕ → Bool) (ending : Ending) where
  -- The bytes of one `recv`.
  abbrev step_size : ℕ → List ℕ → Rx → ℕ
  step_size limit queued rx =
      let r = (make_room memory rx).1 in
      min (min limit (length queued)) (length r.buf - (r.off + r.len))

  abbrev stepped : ℕ → List ℕ → Rx → Rx
  stepped limit queued rx =
      received (make_room memory rx).1 (take (step_size limit queued rx) queued)

  stepped_fits :
      (limit : ℕ) (queued : List ℕ) (rx : Rx)
      → IsWithin rx
      → let r = (make_room memory rx).1 in
        (length (take (step_size limit queued rx) queued) ≡ step_size limit queued rx)
        × (r.off + r.len + length (take (step_size limit queued rx) queued) ≤ length r.buf)
  stepped_fits limit queued rx w =
      let s = make_room-Same memory rx w in
      let n = length-take (step_size limit queued rx) queued in
      (omega (arith, n), omega (arith, n, s.within.inside))

  stepped-Keeps :
      (limit : ℕ) (queued : List ℕ) (rx : Rx)
      → IsWithin rx
      → Keeps rx queued (ending, stepped limit queued rx, drop (step_size limit queued rx) queued)
  stepped-Keeps limit queued rx w =
      let r = (make_room memory rx).1 in
      let s = make_room-Same memory rx w in
      let n = step_size limit queued rx in
      let f = (stepped_fits limit queued rx w).1 in
      record {
        within = received-IsWithin r (take n queued) f s.within;
        stream =
            ap (λ t. t ++ drop n queued) (contents-received r (take n queued) f)
            ∙ append_assoc (contents r) (take n queued) (drop n queued)
            ∙ ap (λ t. contents r ++ t) (take-append-drop n queued)
            ∙ ap (λ t. t ++ queued) s.bytes;
      }

  -- Every byte that `fill_rx` takes off the kernel stands in the buffer behind those before it,
  -- and the bytes of the buffer stay in it.
  pub fill_rx-Keeps :
      (limits queued : List ℕ) (rx : Rx)
      → IsWithin rx
      → Keeps rx queued (fill_rx memory ending limits queued rx)
  unfolding fill_rx
  fill_rx-Keeps [] queued rx w =
      let s = make_room-Same memory rx w in
      if_cases (Keeps rx queued) (make_room memory rx).0
        (λ _. record { within = s.within; stream = ap (λ t. t ++ queued) s.bytes })
        (λ _. record { within = s.within; stream = ap (λ t. t ++ queued) s.bytes })
  fill_rx-Keeps (limit ∷ limits) queued rx w =
      let s = make_room-Same memory rx w in
      let n = step_size limit queued rx in
      let k = stepped-Keeps limit queued rx w in
      let rest = fill_rx-Keeps limits (drop n queued) (stepped limit queued rx) k.within in
      if_cases (Keeps rx queued) (make_room memory rx).0
        (λ _.
          if_cases (Keeps rx queued) (n == 0)
            (λ _. record { within = s.within; stream = ap (λ t. t ++ queued) s.bytes })
            (λ _. record { within = rest.within; stream = rest.stream ∙ k.stream }))
        (λ _. record { within = s.within; stream = ap (λ t. t ++ queued) s.bytes })

  abbrev Ends : Ending × Rx × List ℕ → Type 0
  Ends r = ((r.2 ≡ []) × (r.0 ≡ ending)) ⊎ (r.1.len ≡ rx_limit)

  full_of :
      (rx : Rx)
      → IsWithin rx
      → ((n : ℕ) → memory n ≡ true)
      → (make_room memory rx).0 ≡ false
      → (make_room memory rx).1.len ≡ rx_limit
  full_of rx w plenty out =
      (make_room-Same memory rx w).same_len ∙ make_room_full memory rx w plenty out

  -- Where there is memory, and as many answers as there are bytes, none of them empty, all is
  -- read and the ending is reported, or the buffer is full at its largest size.
  pub fill_rx_progress :
      (limits queued : List ℕ) (rx : Rx)
      → IsWithin rx
      → ((n : ℕ) → memory n ≡ true)
      → All (λ n. 0 < n) limits
      → length queued ≤ length limits
      → let r = fill_rx memory ending limits queued rx in
        ((r.2 ≡ []) × (r.0 ≡ ending)) ⊎ (r.1.len ≡ rx_limit)
  unfolding fill_rx
  fill_rx_progress [] queued rx w plenty pos long =
      if_cases Ends (make_room memory rx).0
        (λ _. inl (nil_of queued (omega arith), answer_nil ending queued (omega arith)))
        (λ out. inr (full_of rx w plenty out))
  fill_rx_progress (limit ∷ limits) queued rx w plenty pos long =
      let n = step_size limit queued rx in
      let k = stepped-Keeps limit queued rx w in
      if_cases Ends (make_room memory rx).0
        (λ free.
          let room = make_room_free memory rx w free in
          if_cases Ends (n == 0)
            (λ none_left.
              let e : length queued ≡ 0 = omega (arith, pos.0, room, (==_iff n 0).0 none_left) in
              inl (nil_of queued e, answer_nil ending queued e))
            (λ some_left.
              fill_rx_progress limits (drop n queued) (stepped limit queued rx) k.within plenty
                pos.1 (omega (arith, length-drop n queued, long, not_zero n some_left))))
        (λ out. inr (full_of rx w plenty out))

-- `consume` takes bytes off the front.
pub consume-IsWithin : (bytes : ℕ) (rx : Rx) → IsWithin rx → IsWithin (consume bytes rx)
unfolding consume
consume-IsWithin bytes rx w = record { inside = ground (arith, w.inside); small = w.small }

pub contents-consume :
    (bytes : ℕ) (rx : Rx) → bytes ≤ rx.len → contents (consume bytes rx) ≡ drop bytes (contents rx)
unfolding consume
contents-consume bytes rx h =
    let n = min bytes rx.len in
    let left = rx.len - n in
    let window = drop rx.off rx.buf in
    let cut : drop bytes (take rx.len window) ≡ take left (drop bytes window) =
      ap (λ k. drop bytes (take k window)) {x = rx.len} {y = bytes + left} (omega arith)
      ∙ drop-take bytes left window in
    if_cases (λ (o : ℕ). take left (drop o rx.buf) ≡ drop bytes (take rx.len window)) (left == 0)
      (λ e.
        let z : left ≡ 0 = (==_iff left 0).0 e in
        ap (λ k. take k (drop 0 rx.buf)) z ∙ sym (ap (λ k. take k (drop bytes window)) z) ∙ sym cut)
      (λ _.
        ap (λ k. take left (drop (rx.off + k) rx.buf)) {x = n} {y = bytes} (omega arith)
        ∙ ap (take left) (drop-drop rx.off bytes rx.buf)
        ∙ sym cut)
