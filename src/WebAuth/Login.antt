-- ===== src/WebAuth/Login.antt =====
-- What a login grants, and when it grants nothing.
use capture2cloud.Base.{
  ℕ, zero, suc, ◌+◌, ◌≤◌, ◌<◌, ◌≡◌, refl, ap, ◌∙◌, inl, inr, arith, List, [], ◌∷◌, true, false,
  ◌||◌, ltb, leb, ◌==◌, Option, none, some, Bool-cases, length, length-set, set, take, All, IsByte,
}
use capture2cloud.WebAuth.{
  WebStream, Answer, granted, secure_equals, session_add, among_sessions, session_is_valid,
  handle_login, login_is_locked, login_record_failure, login_record_success, token_hex_len,
  max_sessions, login_max_fails, lockout_seconds, first_line, max_password_len, no_token,
}
use capture2cloud.WebAuth.Equality.{secure_equals_iff}

-- The table of sessions is whole, and both counters stay in it.
pub record IsTable (ws : WebStream) : Type 0 where
  pub whole : length ws.sessions ≡ max_sessions
  pub counted : ws.session_count ≤ max_sessions
  pub next_inside : ws.session_next < max_sessions

among_sessions-set :
    (count : ℕ) (sessions : List (List ℕ)) (k : ℕ) (s token : List ℕ)
    → k < count
    → k < length sessions
    → secure_equals s token ≡ true
    → among_sessions count (set sessions k s) token ≡ true
unfolding among_sessions
among_sessions-set zero sessions k s token p q e = absurd (omega arith)
among_sessions-set (suc count) [] k s token p q e = absurd (omega arith)
among_sessions-set (suc count) (t ∷ sessions) zero s token p q e = rw e
among_sessions-set (suc count) (t ∷ sessions) (suc k) s token p q e =
    rw (among_sessions-set count sessions k s token (omega arith) (omega arith) e)
      (elim (Bool-cases (secure_equals t token)) [ inl h ↦ rw h | inr h ↦ rw h ])

take_fits : (n : ℕ) (xs : List ℕ) → length xs ≤ n → take n xs ≡ xs
take_fits zero [] h = refl
take_fits zero (x ∷ xs) h = absurd (omega arith)
take_fits (suc n) [] h = refl
take_fits (suc n) (x ∷ xs) h = ap (λ t. x ∷ t) (take_fits n xs (omega arith))

valid_unless_empty :
    (ws : WebStream) (token : List ℕ)
    → 0 < length token
    → session_is_valid ws token ≡ among_sessions ws.session_count ws.sessions token
unfolding session_is_valid
valid_unless_empty ws [] h = absurd (omega arith)
valid_unless_empty ws (c ∷ token) h = refl

-- A token of at most 64 bytes is valid once it has been added, also when the table is full and
-- an older session gives way; the table stays whole.
pub session_is_valid-add :
    (ws : WebStream) (token : List ℕ)
    → IsTable ws
    → All IsByte token
    → 0 < length token
    → length token ≤ token_hex_len
    → (session_is_valid (session_add token ws) token ≡ true) × IsTable (session_add token ws)
unfolding session_add
session_is_valid-add ws token h bytes some_bytes fits =
    let kept = take_fits token_hex_len token fits in
    let same = (secure_equals_iff token token bytes bytes).1 refl in
    elim (Bool-cases (ltb ws.session_count max_sessions)) [
      | inl room ↦
          rw (valid_unless_empty _ token some_bytes, room, kept)
            (
              among_sessions-set (ws.session_count + 1) ws.sessions ws.session_count token token
                  (omega arith) (ground (arith, h.whole, room)) same,
              record {
                whole = length-set ws.sessions ws.session_count token ∙ h.whole;
                counted = ground (arith, room);
                next_inside = h.next_inside;
              },
            )
      | inr full ↦
          rw (valid_unless_empty _ token some_bytes, full, kept)
            (
              among_sessions-set ws.session_count ws.sessions ws.session_next token token
                  (ground (arith, h.next_inside, full)) (omega (arith, h.whole, h.next_inside))
                  same,
              record {
                whole = length-set ws.sessions ws.session_next token ∙ h.whole;
                counted = h.counted;
                next_inside = omega arith;
              },
            )
    ]

-- `n` failures in a row, all at `now`.
pub failures : ℕ → ℕ → WebStream → WebStream
failures zero now ws = ws
failures (suc n) now ws = failures n now (login_record_failure now ws)

failure_counts :
    (now : ℕ) (ws : WebStream)
    → leb login_max_fails (ws.login_fails + 1) ≡ false
    → login_record_failure now ws ≡ record ws { login_fails = ws.login_fails + 1 }
unfolding login_record_failure
failure_counts now ws h = rw h

-- A server whose count of failures is below five is locked by the failures that are missing to
-- five, for the next thirty seconds and no longer, and the count starts again.
pub login_is_locked-failures :
    (n now t : ℕ) (ws : WebStream)
    → ws.login_fails + suc n ≡ login_max_fails
    → let after = failures (suc n) now ws in
      (login_is_locked t after ≡ ltb t (now + lockout_seconds)) × (after.login_fails ≡ 0)
unfolding failures login_is_locked login_record_failure
login_is_locked-failures zero now t ws h =
    let last : leb login_max_fails (ws.login_fails + 1) ≡ true = ground (arith, h) in
    rw (login_record_failure, last) (refl, refl)
login_is_locked-failures (suc n) now t ws h =
    let more = failure_counts now ws (ground (arith, h)) in
    rw (failures, more)
      (login_is_locked-failures n now t (record ws { login_fails = ws.login_fails + 1 })
        (omega (arith, h)))

-- Where there is a password, and something was read.
granted_read :
    (now later content_length : ℕ) (read password : List ℕ) (fresh : Option (List ℕ))
    (ws : WebStream) (token : List ℕ)
    → All IsByte (first_line read)
    → All IsByte password
    → (handle_login now later content_length (some read) (some password) fresh ws).0 ≡ granted token
    → (login_is_locked now ws ≡ false) × (first_line read ≡ password) × (fresh ≡ some token)
unfolding handle_login
granted_read now later content_length read password fresh ws token p q h =
    elim (Bool-cases (content_length == 0 || ltb max_password_len content_length)) [
      | inl bad ↦ absurd (ground (arith, rw bad at h))
      | inr ok ↦ elim (Bool-cases (login_is_locked now ws)) [
        | inl locked ↦ absurd (ground (arith, rw (ok, locked) at h))
        | inr open_now ↦ elim (Bool-cases (secure_equals (first_line read) password)) [
          | inr wrong ↦ absurd (ground (arith, rw (ok, open_now, wrong) at h))
          | inl right ↦ (
            open_now,
            (secure_equals_iff (first_line read) password p q).0 right,
            fresh_token fresh (rw (ok, open_now, right) at h),
          )
        ]
      ]
    ]
  where
    fresh_token :
        (f : Option (List ℕ))
        → (elim f as (λ _. Answer × WebStream) [
          | none ↦ (no_token, ws)
          | some t ↦ (granted t, session_add t (login_record_success ws))
        ]).0
          ≡ granted token
        → f ≡ some token
    fresh_token none e = absurd (ground (arith, e))
    fresh_token (some t) e = ap some (ground (arith, e))

abbrev pub text_of : Option (List ℕ) → List ℕ
text_of none = []
text_of (some text) = text

-- What a granted token says of the login.
pub record IsGranted (now : ℕ) (body expected fresh : Option (List ℕ)) (ws : WebStream)
    (token : List ℕ) : Type 0 where
  pub read : List ℕ
  pub password : List ℕ
  pub was_read : body ≡ some read
  pub configured : expected ≡ some password
  pub right : first_line read ≡ password
  pub in_time : login_is_locked now ws ≡ false
  pub token_made : fresh ≡ some token

-- A token is granted only outside a lockout, where a password is configured, to the one who sent
-- that password, and it is the one that was made for this login.
pub handle_login_granted :
    (now later content_length : ℕ) (body expected fresh : Option (List ℕ)) (ws : WebStream)
    (token : List ℕ)
    → All IsByte (first_line (text_of body))
    → All IsByte (text_of expected)
    → (handle_login now later content_length body expected fresh ws).0 ≡ granted token
    → IsGranted now body expected fresh ws token
unfolding handle_login
handle_login_granted now later content_length none expected fresh ws token p q h =
    elim (Bool-cases (content_length == 0 || ltb max_password_len content_length)) [
      | inl bad ↦ absurd (ground (arith, rw bad at h))
      | inr ok ↦ absurd (ground (arith, rw ok at h))
    ]
handle_login_granted now later content_length (some read) none fresh ws token p q h =
    elim (Bool-cases (content_length == 0 || ltb max_password_len content_length)) [
      | inl bad ↦ absurd (ground (arith, rw bad at h))
      | inr ok ↦ elim (Bool-cases (login_is_locked now ws)) [
        | inl locked ↦ absurd (ground (arith, rw (ok, locked) at h))
        | inr open_now ↦ absurd (ground (arith, rw (ok, open_now) at h))
      ]
    ]
handle_login_granted now later content_length (some read) (some password) fresh ws token p q h =
    let g = granted_read now later content_length read password fresh ws token p q h in
    record {
      read = read;
      password = password;
      was_read = refl;
      configured = refl;
      right = g.1;
      in_time = g.0;
      token_made = g.2;
    }
