-- ===== src/WebAuth.antt =====
-- The login of server/web_stream.c: the comparison of passwords, the lockout and the table of
-- session tokens.
pub mod Equality
pub mod Login
mod Tests
use capture2cloud.Base.{
  ℕ, zero, suc, ◌+◌, ◌-◌, ◌%◌, List, [], ◌∷◌, Bool, true, false, not, ◌&&◌, ◌||◌, ltb, leb, ◌==◌,
  if◌then◌else◌, Option, none, some, bit_or, bit_xor, length, set, take, u8,
}

abbrev pub max_password_len : ℕ
max_password_len = 256

abbrev pub token_hex_len : ℕ
token_hex_len = 64

abbrev pub login_max_fails : ℕ
login_max_fails = 5

abbrev pub lockout_seconds : ℕ
lockout_seconds = 30

abbrev pub max_sessions : ℕ
max_sessions = 16

-- The part of a `WebStream` that `auth_mutex` guards. A string is the list of its bytes.
pub record WebStream : Type 0 where
  pub sessions : List (List ℕ)
  pub session_count : ℕ
  pub session_next : ℕ
  pub login_fails : ℕ
  pub login_locked_until : ℕ

unfoldable pub login_is_locked : ℕ → WebStream → Bool
login_is_locked now ws = ltb now ws.login_locked_until

unfoldable pub login_record_failure : ℕ → WebStream → WebStream
login_record_failure now ws =
    if leb login_max_fails (ws.login_fails + 1)
    then record ws { login_fails = 0; login_locked_until = now + lockout_seconds }
    else record ws { login_fails = ws.login_fails + 1 }

unfoldable pub login_record_success : WebStream → WebStream
login_record_success ws = record ws { login_fails = 0; login_locked_until = 0 }

-- `diff` after the loop over the common length.
unfoldable pub differences : ℕ → List ℕ → List ℕ → ℕ
differences diff [] b = diff
differences diff (x ∷ a) [] = diff
differences diff (x ∷ a) (y ∷ b) = differences (bit_or diff (u8 (bit_xor x y))) a b

unfoldable pub secure_equals : List ℕ → List ℕ → Bool
secure_equals a b = differences (if length a == length b then 0 else 1) a b == 0

-- `snprintf` keeps what fits.
unfoldable pub session_add : List ℕ → WebStream → WebStream
session_add token ws =
    let kept = take token_hex_len token in
    if ltb ws.session_count max_sessions
    then record ws {
      sessions = set ws.sessions ws.session_count kept;
      session_count = ws.session_count + 1;
    }
    else record ws {
      sessions = set ws.sessions ws.session_next kept;
      session_next = (ws.session_next + 1) % max_sessions;
    }

-- The loop over the first `count` sessions.
unfoldable pub among_sessions : ℕ → List (List ℕ) → List ℕ → Bool
among_sessions zero sessions token = false
among_sessions (suc count) [] token = false
among_sessions (suc count) (s ∷ sessions) token =
    secure_equals s token || among_sessions count sessions token

unfoldable pub session_is_valid : WebStream → List ℕ → Bool
session_is_valid ws [] = false
session_is_valid ws (c ∷ token) = among_sessions ws.session_count ws.sessions (c ∷ token)

-- `required` says whether a password is configured.
unfoldable pub request_may_control : Bool → WebStream → List ℕ → Bool
request_may_control required ws token = if not required then true else session_is_valid ws token

-- The answers of `handle_login`; `silent` sends none.
pub data Answer : Type 0 where
  bad_length silent locked_out no_password unauthorized no_token : Answer
  granted : List ℕ → Answer

-- What stands before the first CR or LF, or before the end of the string.
abbrev pub first_line : List ℕ → List ℕ
first_line [] = []
first_line (c ∷ s) =
    let rest = first_line s in if c == 0 || (c == 13 || c == 10) then [] else c ∷ rest

-- `body` is what `read_exact` reads, `expected` the configured password, `fresh` the result of
-- `generate_token`; the clock is read at `now`, and at `later` for a failure.
-- A length that is negative is handled like 0.
unfoldable pub handle_login :
    ℕ → ℕ → ℕ → Option (List ℕ) → Option (List ℕ) → Option (List ℕ) → WebStream → Answer × WebStream
handle_login now later content_length body expected fresh ws =
    if content_length == 0 || ltb max_password_len content_length
    then (bad_length, ws)
    else elim body [
      | none ↦ (silent, ws)
      | some read ↦ if login_is_locked now ws then (locked_out, ws) else elim expected [
        | none ↦ (no_password, ws)
        | some password ↦
            if not (secure_equals (first_line read) password)
            then (unauthorized, login_record_failure later ws)
            else elim fresh [
              | none ↦ (no_token, ws)
              | some token ↦ (granted token, session_add token (login_record_success ws))
            ]
      ]
    ]
