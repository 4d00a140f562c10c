-- ===== src/HostLink/Buffer/Stream.antt =====
-- The reassembly buffer of wiiu_console/src/net.c is a queue of bytes, wherever its bytes lie.
use capture2cloud.Base.{
  ℕ, ◌+◌, ◌-◌, ◌≤◌, ◌<◌, List, ◌++◌, Bool, true, false, ◌≡◌, refl, sym, ap, ◌∙◌, ltb, leb, if_cases,
  ltb→lt, leb→le, length, take, drop, replicate, length-append, length-take, length-drop,
  length-replicate, take-append_more, window-append, drop-take-append, arith,
}
use mathlib.Core.List.{append-nil}
use capture2cloud.HostLink.{Rx, contents, write_at, rx_limit}
use capture2cloud.HostLink.Buffer.{compact, next_capacity, make_room, received}

-- The bytes in use lie in the buffer, which is not too large.
pub record IsWithin (rx : Rx) : Type 0 where
  pub inside : rx.off + rx.len ≤ length rx.buf
  pub small : length rx.buf ≤ rx_limit

leb-false : (a b : ℕ) → leb a b ≡ false → b < a
leb-false a b h = ground arith

ltb-false : (a b : ℕ) → ltb a b ≡ false → b ≤ a
ltb-false a b h = ground arith

-- Doubling stops at the limit only.
widest : (cap : ℕ) → next_capacity cap ≤ cap → rx_limit ≤ cap
widest cap h = ground arith

pub length-contents : (rx : Rx) → IsWithin rx → length (contents rx) ≡ rx.len
length-contents rx w =
    omega (arith, length-take rx.len (drop rx.off rx.buf), length-drop rx.off rx.buf)

length-write_at :
    (buf : List ℕ) (at : ℕ) (bytes : List ℕ)
    → at + length bytes ≤ length buf
    → length (write_at buf at bytes) ≡ length buf
length-write_at buf at bytes h = omega (
  arith,
  length-append (take at buf) (bytes ++ drop (at + length bytes) buf),
  length-append bytes (drop (at + length bytes) buf),
  length-take at buf,
  length-drop (at + length bytes) buf,
)

-- What is received stands behind what was there.
pub contents-received :
    (rx : Rx) (bytes : List ℕ)
    → rx.off + rx.len + length bytes ≤ length rx.buf
    → contents (received rx bytes) ≡ contents rx ++ bytes
contents-received rx bytes h =
    let rest = drop (rx.off + rx.len + length bytes) rx.buf in
    let n : length (contents rx) ≡ rx.len =
      omega (arith, length-take rx.len (drop rx.off rx.buf), length-drop rx.off rx.buf) in
    ap (take (rx.len + length bytes))
      (drop-take-append rx.off rx.len rx.buf (bytes ++ rest) (omega arith))
    ∙ ap (λ k. take (k + length bytes) (contents rx ++ (bytes ++ rest))) (sym n)
    ∙ take-append_more (contents rx) (bytes ++ rest) (length bytes)
    ∙ ap (λ t. contents rx ++ take t (bytes ++ rest)) {x = length bytes} {y = length bytes + 0}
        (omega arith)
    ∙ ap (λ t. contents rx ++ t) (take-append_more bytes rest 0 ∙ append-nil bytes)

pub received-IsWithin :
    (rx : Rx) (bytes : List ℕ)
    → rx.off + rx.len + length bytes ≤ length rx.buf
    → IsWithin rx
    → IsWithin (received rx bytes)
received-IsWithin rx bytes h w = record {
  inside = omega (arith, length-write_at rx.buf (rx.off + rx.len) bytes h);
  small = omega (arith, w.small, length-write_at rx.buf (rx.off + rx.len) bytes h);
}

-- What `make_room` and `consume` do to the buffer leaves the bytes alone.
pub record Same (rx moved : Rx) : Type 0 where
  pub within : IsWithin moved
  pub bytes : contents moved ≡ contents rx
  pub same_len : moved.len ≡ rx.len

Same-refl : (rx : Rx) → IsWithin rx → Same rx rx
Same-refl rx w = record { within = w; bytes = refl; same_len = refl }

compact-Same : (rx : Rx) → IsWithin rx → Same rx (compact rx)
unfolding compact
compact-Same rx w =
    let n = length-contents rx w in
    let all : length (write_at rx.buf 0 (contents rx)) ≡ length rx.buf =
      length-write_at rx.buf 0 (contents rx) (omega (arith, n, w.inside)) in
    if_cases (Same rx) (ltb 0 rx.off)
      (λ _. record {
        within = record {
          inside = omega (arith, all, w.inside);
          small = omega (arith, all, w.small);
        };
        bytes =
            ap (λ k. take k (contents rx ++ drop (0 + length (contents rx)) rx.buf)) {x = rx.len}
              {y = length (contents rx) + 0} (omega (arith, n))
            ∙ take-append_more (contents rx) (drop (0 + length (contents rx)) rx.buf) 0
            ∙ append-nil (contents rx);
        same_len = refl;
      })
      (λ _. Same-refl rx w)

compact-off : (rx : Rx) → (compact rx).off ≡ 0
unfolding compact
compact-off rx = ground arith

compact-length : (rx : Rx) → IsWithin rx → length (compact rx).buf ≡ length rx.buf
unfolding compact
compact-length rx w =
    if_cases (λ (r : Rx). length r.buf ≡ length rx.buf) (ltb 0 rx.off)
      (λ _. length-write_at rx.buf 0 (contents rx) (omega (arith, length-contents rx w, w.inside)))
      (λ _. refl)

widened-Same :
    (rx : Rx) (more : List ℕ)
    → length rx.buf + length more ≤ rx_limit
    → IsWithin rx
    → Same rx (record { buf = rx.buf ++ more; off = rx.off; len = rx.len })
widened-Same rx more h w = record {
  within = record {
    inside = omega (arith, length-append rx.buf more, w.inside);
    small = omega (arith, length-append rx.buf more);
  };
  bytes = window-append rx.off rx.len rx.buf more w.inside;
  same_len = refl;
}

Same-trans : {r s t : Rx} → Same r s → Same s t → Same r t
Same-trans p q = record {
  within = q.within;
  bytes = q.bytes ∙ p.bytes;
  same_len = q.same_len ∙ p.same_len;
}

pub make_room-Same : (memory : ℕ → Bool) (rx : Rx) → IsWithin rx → Same rx (make_room memory rx).1
unfolding make_room
make_room-Same memory rx w =
    let moved = compact rx in
    let S : Bool × Rx → Type 0 = λ r. Same rx r.1 in
    let c : Same rx moved = compact-Same rx w in
    let wider = next_capacity (length rx.buf) in
    if_cases S (ltb (rx.off + rx.len) (length rx.buf)) (λ _. Same-refl rx w)
      (λ _.
        if_cases S (ltb moved.len (length rx.buf)) (λ _. c)
          (λ _.
            if_cases S (leb wider (length rx.buf)) (λ _. c)
              (λ more.
                if_cases S (memory wider)
                  (λ _. Same-trans c (
                    widened-Same moved (replicate (wider - length rx.buf) 0)
                      (omega (
                        arith,
                        length-replicate {A = ℕ} (wider - length rx.buf) 0,
                        compact-length rx w,
                        leb-false wider (length rx.buf) more,
                      ))
                      c.within))
                  (λ _. c))))

-- Where there is room, there is at least one free byte.
pub make_room_free :
    (memory : ℕ → Bool) (rx : Rx)
    → IsWithin rx
    → (make_room memory rx).0 ≡ true
    → let r = (make_room memory rx).1 in r.off + r.len < length r.buf
unfolding make_room
make_room_free memory rx w =
    let moved = compact rx in
    let cap = length rx.buf in
    let F : Bool × Rx → Type 0 = λ r. r.0 ≡ true → r.1.off + r.1.len < length r.1.buf in
    let wider = next_capacity cap in
    let same : length moved.buf ≡ cap = compact-length rx w in
    let front : moved.off ≡ 0 = compact-off rx in
    let n : moved.len ≡ rx.len = (compact-Same rx w).same_len in
    if_cases F (ltb (rx.off + rx.len) cap) (λ e _. ltb→lt (rx.off + rx.len) cap e)
      (λ _.
        if_cases F (ltb moved.len cap) (λ e _. omega (arith, ltb→lt moved.len cap e))
          (λ _.
            if_cases F (leb wider cap) (λ _ h. cc)
              (λ more.
                if_cases F (memory wider)
                  (λ _ _. omega (
                    arith,
                    w.inside,
                    leb-false wider cap more,
                    length-append moved.buf (replicate (wider - cap) 0),
                    length-replicate {A = ℕ} (wider - cap) 0,
                  ))
                  (λ _ h. cc))))

-- With memory, room is refused only to a buffer that is full and as large as it may be.
pub make_room_full :
    (memory : ℕ → Bool) (rx : Rx)
    → IsWithin rx
    → ((n : ℕ) → memory n ≡ true)
    → (make_room memory rx).0 ≡ false
    → rx.len ≡ rx_limit
unfolding make_room
make_room_full memory rx w plenty =
    let moved = compact rx in
    let cap = length rx.buf in
    let F : Bool × Rx → Type 0 = λ r. r.0 ≡ false → rx.len ≡ rx_limit in
    let wider = next_capacity cap in
    let n : moved.len ≡ rx.len = (compact-Same rx w).same_len in
    if_cases F (ltb (rx.off + rx.len) cap) (λ _ h. cc)
      (λ _.
        if_cases F (ltb moved.len cap) (λ _ h. cc)
          (λ full.
            if_cases F (leb wider cap)
              (λ e _. omega (
                arith,
                w.inside,
                w.small,
                widest cap (leb→le wider cap e),
                ltb-false moved.len cap full,
              ))
              (λ _. if_cases F (memory wider) (λ _ h. cc) (λ out _. absurd (cc (plenty wider))))))
