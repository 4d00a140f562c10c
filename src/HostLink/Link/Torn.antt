-- ===== src/HostLink/Link/Torn.antt =====
-- What `send_message` in wiiu_console/src/net.c leaves on the wire where the socket's buffer is
-- full.
use capture2cloud.Base.{
  ℕ, suc, ◌+◌, ◌-◌, ◌/◌, ◌%◌, ◌^◌, ◌≤◌, ◌<◌, min, List, [], ◌∷◌, ◌++◌, Bool, true, false, ◌≡◌, refl,
  sym, ap, ap₂, ◌∙◌, ◌==◌, if◌then◌else◌, Option, some, length, take, drop, length-take,
  take-append-drop, arith,
}
use mathlib.Core.List.{append_assoc, append-nil}
use capture2cloud.Wire.{store16, c2s_le16}
use capture2cloud.Wire.Order.{store32-c2s_le32}
use capture2cloud.Native.{Descriptor, SendResult, takes, frame_header}
use capture2cloud.Native.Socket.{push, is_finished, finished, blocked}
use capture2cloud.Native.Messages.{message, next_message}
use capture2cloud.Native.Messages.Parse.{framed, next_message-framed}
use capture2cloud.HostLink.Link.{
  Link, console_header, after_send, send_all_by, send_all, send_message,
}

-- The console writes the header that the server reads.
pub console_header-frame_header :
    (type flags size : ℕ)
    → size < 2 ^ 32
    → console_header type flags size ≡ frame_header type flags size
unfolding store16 c2s_le16
console_header-frame_header type flags size lt =
    ap (λ (t : List ℕ). type ∷ flags ∷ 0 ∷ 0 ∷ t)
      (store32-c2s_le32 true size lt
        ∙ ap (λ t. size % 256 ∷ size / 256 % 256 ∷ size / 65536 % 256 ∷ t ∷ [])
            {x = size / 16777216} {y = size / 16777216 % 256} (omega arith))

send_all_open :
    (fd : Descriptor) (bytes : List ℕ) (l : Link)
    → l.sock ≡ some fd
    → send_all bytes l ≡ after_send l fd bytes (push fd.answers (length bytes))
unfolding send_all send_all_by
send_all_open fd bytes l e = rw e refl

take_all {ℓ} : {A : Type ℓ} (xs : List A) → take (length xs) xs ≡ xs
take_all [] = refl
take_all (x ∷ xs) = ap (λ t. x ∷ t) (take_all xs)

least : (k n : ℕ) → suc n ≤ k → min k (suc n) ≡ suc n
least k n h = omega arith

minus_self : (n : ℕ) → suc n - suc n ≡ 0
minus_self n = omega arith

suc_ne : (n : ℕ) → (suc n == 0) ≡ false
suc_ne n = ground arith

plus_zero : (n : ℕ) → n + 0 ≡ n
plus_zero n = omega arith

min_zero : (n : ℕ) → min 0 n ≡ 0
min_zero n = omega arith

push_takes :
    (k n : ℕ) (more : List SendResult)
    → suc n ≤ k
    → push (takes k ∷ more) (suc n) ≡ (finished, suc n, more)
unfolding push
push_takes k n more h = rw (least k n h, minus_self n, suc_ne n, plus_zero (suc n)) refl

push_none : (n : ℕ) (more : List SendResult) → push (takes 0 ∷ more) (suc n) ≡ (blocked, 0, more)
unfolding push
push_none n more = rw (min_zero (suc n)) refl

abbrev pub sent_link : List ℕ → List SendResult → Option Descriptor
sent_link wire answers = some (record { wire = wire; answers = answers })

-- A send that the kernel takes whole.
pub send_all_whole :
    (fd : Descriptor) (k : ℕ) (more : List SendResult) (b : ℕ) (bytes : List ℕ) (l : Link)
    → l.sock ≡ some fd
    → fd.answers ≡ takes k ∷ more
    → suc (length bytes) ≤ k
    → let r = send_all (b ∷ bytes) l in
      (r.0 ≡ true) × (r.1.sock ≡ sent_link (fd.wire ++ b ∷ bytes) more) × (r.1.stage ≡ l.stage)
unfolding is_finished
send_all_whole fd k more b bytes l e a h =
    rw (send_all_open fd (b ∷ bytes) l e, a, push_takes k (length bytes) more h)
      (refl, ap (λ t. sent_link (fd.wire ++ b ∷ t) more) (take_all bytes), refl)

-- And one of which it takes nothing.
send_all_blocked :
    (fd : Descriptor) (more : List SendResult) (b : ℕ) (bytes : List ℕ) (l : Link)
    → l.sock ≡ some fd
    → fd.answers ≡ takes 0 ∷ more
    → let r = send_all (b ∷ bytes) l in
      (r.0 ≡ false) × (r.1.sock ≡ sent_link fd.wire more) × (r.1.stage ≡ l.stage)
unfolding is_finished
send_all_blocked fd more b bytes l e a =
    rw (send_all_open fd (b ∷ bytes) l e, a, push_none (length bytes) more)
      (refl, ap (λ t. sent_link t more) (append-nil fd.wire), refl)

abbrev sent_after : List ℕ → List ℕ → Link → Bool × Link
sent_after head payload l =
    let header = send_all head l in
    let body = send_all payload header.1 in
    if header.0 then if length payload == 0 then (true, header.1) else body else (false, header.1)

send_message_header :
    (type flags : ℕ) (payload : List ℕ) (l : Link)
    → length payload < 2 ^ 32
    → send_message type flags payload l
      ≡ sent_after (frame_header type flags (length payload)) payload l
unfolding send_message
send_message_header type flags payload l lt =
    ap (λ head. sent_after head payload l)
      (console_header-frame_header type flags (length payload) lt)

abbrev header_tail : ℕ → ℕ → List ℕ
header_tail flags size = drop 1 (frame_header 0 flags size)

-- A message of which the kernel takes the header and nothing more.
send_message_cut :
    (fd : Descriptor) (more : List SendResult) (type flags b : ℕ) (bytes : List ℕ) (l : Link)
    → l.sock ≡ some fd
    → fd.answers ≡ takes 8 ∷ takes 0 ∷ more
    → suc (length bytes) < 2 ^ 32
    → let r = send_message type flags (b ∷ bytes) l in
      (r.0 ≡ false)
      × (r.1.sock ≡ sent_link (fd.wire ++ frame_header type flags (suc (length bytes))) more)
      × (r.1.stage ≡ l.stage)
send_message_cut fd more type flags b bytes l e a lt =
    let n = suc (length bytes) in
    let head = send_all (frame_header type flags n) l in
    let h = send_all_whole fd 8 (takes 0 ∷ more) type (header_tail flags n) l e a (omega arith) in
    let p =
      send_all_blocked
        (record { wire = fd.wire ++ frame_header type flags n; answers = takes 0 ∷ more }) more b
        bytes head.1 h.1 refl in
    rw (send_message_header type flags (b ∷ bytes) l lt, h.0, suc_ne (length bytes))
      (p.0, p.1, p.2 ∙ h.2)

-- And one of which it takes all.
send_message_whole :
    (fd : Descriptor) (k : ℕ) (more : List SendResult) (type flags b : ℕ) (bytes : List ℕ)
    (l : Link)
    → l.sock ≡ some fd
    → fd.answers ≡ takes 8 ∷ takes k ∷ more
    → suc (length bytes) ≤ k
    → suc (length bytes) < 2 ^ 32
    → let r = send_message type flags (b ∷ bytes) l in
      (r.0 ≡ true)
      × (r.1.sock ≡ sent_link (fd.wire ++ framed type flags (b ∷ bytes)) more)
      × (r.1.stage ≡ l.stage)
send_message_whole fd k more type flags b bytes l e a fits lt =
    let n = suc (length bytes) in
    let head = send_all (frame_header type flags n) l in
    let h = send_all_whole fd 8 (takes k ∷ more) type (header_tail flags n) l e a (omega arith) in
    let p =
      send_all_whole
        (record { wire = fd.wire ++ frame_header type flags n; answers = takes k ∷ more }) k more b
        bytes head.1 h.1 refl fits in
    rw (send_message_header type flags (b ∷ bytes) l lt, h.0, suc_ne (length bytes))
      (
        p.0,
        p.1
            ∙ ap (λ t. sent_link t more)
                (append_assoc fd.wire (frame_header type flags n) (b ∷ bytes)),
        p.2 ∙ h.2,
      )

-- Where the kernel takes a message's header and no more, that send fails, the link stays as it is,
-- and the next message, taken whole, follows the header: the server then takes for the first
-- message's payload the first bytes of the second, its header among them.
pub send_message_torn :
    (wire : List ℕ) (k cap : ℕ) (t1 f1 b1 : ℕ) (p1 : List ℕ) (t2 f2 b2 : ℕ) (p2 : List ℕ) (l : Link)
    → l.sock ≡ sent_link wire (takes 8 ∷ takes 0 ∷ takes 8 ∷ takes k ∷ [])
    → length p1 ≤ 8 + length p2
    → suc (length p2) ≤ k
    → suc (length p1) + 8 ≤ cap
    → cap < 2 ^ 32
    → suc (length p2) < 2 ^ 32
    → let first = send_message t1 f1 (b1 ∷ p1) l in
      let second = send_message t2 f2 (b2 ∷ p2) first.1 in
      let bytes = frame_header t1 f1 (suc (length p1)) ++ framed t2 f2 (b2 ∷ p2) in
      (first.0 ≡ false)
      × (first.1.stage ≡ l.stage)
      × (second.1.sock ≡ sent_link (wire ++ bytes) [])
      × (next_message cap bytes ≡ message t1 (take (suc (length p1)) (framed t2 f2 (b2 ∷ p2))))
send_message_torn wire k cap t1 f1 b1 p1 t2 f2 b2 p2 l e enough fits room small2 lt2 =
    let n = suc (length p1) in
    let cut =
      send_message_cut
        (record { wire = wire; answers = takes 8 ∷ takes 0 ∷ takes 8 ∷ takes k ∷ [] })
        (takes 8 ∷ takes k ∷ []) t1 f1 b1 p1 l e refl (omega arith) in
    let whole =
      send_message_whole
        (record { wire = wire ++ frame_header t1 f1 n; answers = takes 8 ∷ takes k ∷ [] }) k [] t2
        f2 b2 p2 (send_message t1 f1 (b1 ∷ p1) l).1 cut.1 refl fits lt2 in
    let two = framed t2 f2 (b2 ∷ p2) in
    let size : length (take n two) ≡ n = omega (arith, length-take n two) in
    (
      cut.0,
      cut.2,
      whole.1 ∙ ap (λ t. sent_link t []) (append_assoc wire (frame_header t1 f1 n) two),
      ap₂ (λ m (t : List ℕ). next_message cap (frame_header t1 f1 m ++ t)) (sym size)
            (sym (take-append-drop n two))
          ∙ next_message-framed cap t1 f1 (take n two) (drop n two) (omega (arith, size)) small2,
    )
