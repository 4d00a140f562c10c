-- ===== src/Native/Socket/Stream.antt =====
-- What the kernel and `pending` together hold of a client's stream, across the sends.
use capture2cloud.Base.{
  ℕ, zero, suc, ◌+◌, ◌-◌, ◌≤◌, ◌<◌, min, List, [], ◌∷◌, ◌++◌, Bool, true, ◌≡◌, refl, sym, ap, ◌∙◌,
  ◌≢◌, length, take, drop, length-drop, ltb, if_holds, take-append-drop, arith,
}
use mathlib.Core.List.{append_assoc, append-nil}
use native.Mathlib.Nat.{suc-add, zero-add}
use capture2cloud.Native.{SendResult, takes, gone, Descriptor, SsClient}
use capture2cloud.Native.Socket.{
  Outcome, finished, blocked, lost, push, is_finished, send_all_now, unsent, flushed, flush_pending,
  on_wire, send_msg_now,
}

-- All the bytes that a client has been given, sent or not.
abbrev pub stream : SsClient → List ℕ
stream c = c.fd.wire ++ unsent c

push-le : (answers : List SendResult) (left : ℕ) → (push answers left).1 ≤ left
unfolding push
push-le answers zero = omega arith
push-le [] (suc left) = omega arith
push-le (gone ∷ answers) (suc left) = omega arith
push-le (takes k ∷ answers) (suc left) =
    ground (arith, push-le answers (suc left - min k (suc left)))

push_finished :
    (answers : List SendResult) (left : ℕ)
    → (push answers left).0 ≡ finished
    → (push answers left).1 ≡ left
unfolding push
push_finished answers zero e = refl
push_finished [] (suc left) e = ground arith
push_finished (gone ∷ answers) (suc left) e = ground arith
push_finished (takes k ∷ answers) (suc left) e =
    ground (arith, push_finished answers (suc left - min k (suc left)))

pub push_blocked :
    (answers : List SendResult) (left : ℕ)
    → (push answers left).0 ≡ blocked
    → (push answers left).1 < left
unfolding push
push_blocked answers zero e = ground arith
push_blocked [] (suc left) e = omega arith
push_blocked (gone ∷ answers) (suc left) e = ground arith
push_blocked (takes k ∷ answers) (suc left) e =
    ground (arith, push_blocked answers (suc left - min k (suc left)))

module _ {ℓ} {A : Type ℓ} where
  pub drop-nil : (n : ℕ) → drop {A = A} n [] ≡ []
  drop-nil zero = refl
  drop-nil (suc n) = refl

  pub drop-drop : (m n : ℕ) (xs : List A) → drop (m + n) xs ≡ drop n (drop m xs)
  drop-drop zero n xs = ap (λ k. drop k xs) (zero-add n)
  drop-drop (suc m) n [] = drop-nil (suc m + n) ∙ sym (drop-nil n)
  drop-drop (suc m) n (x ∷ xs) = ap (λ k. drop k (x ∷ xs)) (suc-add m n) ∙ drop-drop m n xs

  pub take_all : (xs : List A) → take (length xs) xs ≡ xs
  take_all [] = refl
  take_all (x ∷ xs) = ap (λ t. x ∷ t) (take_all xs)

-- Bytes that the kernel takes leave `pending`, so that nothing is lost and nothing doubled.
moved : (wire bytes : List ℕ) (n : ℕ) → (wire ++ take n bytes) ++ drop n bytes ≡ wire ++ bytes
moved wire bytes n =
    append_assoc wire (take n bytes) (drop n bytes) ∙ ap (λ t. wire ++ t) (take-append-drop n bytes)

flushed-stream :
    (c : SsClient) (p : Outcome × ℕ × List SendResult)
    → (p.0 ≡ finished → p.1 ≡ length (unsent c))
    → stream (flushed c p).1 ≡ stream c
unfolding flushed
flushed-stream c (finished, n, answers) h =
    append-nil (c.fd.wire ++ take n (unsent c))
    ∙ ap (λ k. c.fd.wire ++ take k (unsent c)) (h refl)
    ∙ ap (λ t. c.fd.wire ++ t) (take_all (unsent c))
flushed-stream c (blocked, n, answers) h =
    ap (λ t. (c.fd.wire ++ take n (unsent c)) ++ t) (drop-drop c.pending_sent n c.pending)
    ∙ moved c.fd.wire (unsent c) n
flushed-stream c (lost, n, answers) h =
    ap (λ t. (c.fd.wire ++ take n (unsent c)) ++ t) (drop-drop c.pending_sent n c.pending)
    ∙ moved c.fd.wire (unsent c) n

-- Flushing moves bytes from `pending` to the wire and changes nothing in the client's stream.
pub flush_pending-stream : (c : SsClient) → stream (flush_pending c).1 ≡ stream c
unfolding flush_pending
flush_pending-stream c =
    flushed-stream c (push c.fd.answers (length (unsent c)))
      (push_finished c.fd.answers (length (unsent c)))

-- A partly sent message is in `pending` exactly while some of it is unsent.
abbrev pub IsQueued : SsClient → Type 0
IsQueued c =
    (c.pending ≡ [] → c.pending_sent ≡ 0) × (c.pending ≢ [] → c.pending_sent < length c.pending)

flushed-IsQueued :
    (c : SsClient) (p : Outcome × ℕ × List SendResult)
    → (p.0 ≡ blocked → p.1 < length (unsent c))
    → (flushed c p).0 ≡ true
    → IsQueued (flushed c p).1
unfolding flushed
flushed-IsQueued c (finished, n, answers) h e = (λ _. refl, λ ne. absurd (ne refl))
flushed-IsQueued c (blocked, n, answers) h e =
    let here : c.pending_sent + n < length c.pending =
      omega (arith, h refl, length-drop c.pending_sent c.pending) in
    (λ e. absurd (omega (arith, here, ap length e)), λ _. here)
flushed-IsQueued c (lost, n, answers) h e = ground arith

pub flush_pending-IsQueued :
    (c : SsClient) → (flush_pending c).0 ≡ true → IsQueued (flush_pending c).1
unfolding flush_pending
flush_pending-IsQueued c e =
    flushed-IsQueued c (push c.fd.answers (length (unsent c)))
      (push_blocked c.fd.answers (length (unsent c))) e

-- What a client has apart from its bytes.
abbrev pub with_bytes : SsClient → Descriptor → List ℕ → ℕ → SsClient
with_bytes c fd pending sent = record c { fd = fd; pending = pending; pending_sent = sent }

-- What holds whatever is in the descriptor and in `pending` holds after flushing.
flushed_holds {κ} :
    (P : SsClient → Type κ) (c : SsClient) (p : Outcome × ℕ × List SendResult)
    → ((fd : Descriptor) (pending : List ℕ) (sent : ℕ) → P (with_bytes c fd pending sent))
    → P (flushed c p).1
unfolding flushed
flushed_holds P c (finished, n, answers) h = h _ _ _
flushed_holds P c (blocked, n, answers) h = h _ _ _
flushed_holds P c (lost, n, answers) h = h _ _ _

pub flush_pending_holds {κ} :
    (P : SsClient → Type κ) (c : SsClient)
    → ((fd : Descriptor) (pending : List ℕ) (sent : ℕ) → P (with_bytes c fd pending sent))
    → P (flush_pending c).1
unfolding flush_pending
flush_pending_holds P c h = flushed_holds P c (push c.fd.answers (length (unsent c))) h

pub send_msg_now_holds {κ} :
    (P : SsClient → Type κ) (c : SsClient) (type : ℕ) (bytes : List ℕ)
    → ((fd : Descriptor) → P (record c { fd = fd }))
    → P (send_msg_now c type bytes).1
unfolding send_msg_now
send_msg_now_holds P c type bytes h =
    if_holds (λ (r : Bool × SsClient). P r.1) (ltb 256 (length bytes)) (h c.fd) (h _)

is_finished_iff : (o : Outcome) → is_finished o ≡ true → o ≡ finished
unfolding is_finished
is_finished_iff o e = ground arith

pub send_all_now_wire :
    (bytes : List ℕ) (fd : Descriptor)
    → (send_all_now bytes fd).0 ≡ true
    → (send_all_now bytes fd).1.wire ≡ fd.wire ++ bytes
unfolding send_all_now
send_all_now_wire bytes fd e =
    let whole : (push fd.answers (length bytes)).1 ≡ length bytes =
      push_finished fd.answers (length bytes) (is_finished_iff _ e) in
    ap (λ k. fd.wire ++ take k bytes) whole ∙ ap (λ t. fd.wire ++ t) (take_all bytes)

-- Whatever `send_msg_now` sends goes out before what is unsent: with a message in `pending`, the
-- new one stands between that one's parts.
pub send_msg_now-stream :
    (c : SsClient) (type : ℕ) (bytes : List ℕ)
    → (send_msg_now c type bytes).0 ≡ true
    → stream (send_msg_now c type bytes).1 ≡ (c.fd.wire ++ on_wire c.is_ws type 0 bytes) ++ unsent c
unfolding send_msg_now
send_msg_now-stream c type bytes =
    if_holds
      (λ (r : Bool × SsClient).
        r.0 ≡ true → stream r.1 ≡ (c.fd.wire ++ on_wire c.is_ws type 0 bytes) ++ unsent c)
      (ltb 256 (length bytes)) (λ e. ground arith)
      (λ e. ap (λ t. t ++ unsent c) (send_all_now_wire (on_wire c.is_ws type 0 bytes) c.fd e))
