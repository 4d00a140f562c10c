-- ===== src/WebAuth/Tests.antt =====
-- Runs of the login.
use capture2cloud.Base.{ℕ, ◌≡◌, refl, arith, List, true, some, replicate, All, IsByte, codes}
use capture2cloud.WebAuth.{
  WebStream, granted, secure_equals, session_add, session_is_valid, handle_login, login_is_locked,
  max_sessions, differences,
}
use capture2cloud.WebAuth.Login.{IsTable, session_is_valid-add, IsGranted, handle_login_granted}

abbrev full : WebStream
full = record {
  sessions = replicate max_sessions (codes "0a");
  session_count = 16;
  session_next = 15;
  login_fails = 2;
  login_locked_until = 0;
}

full-IsTable : IsTable full
full-IsTable = record { whole = refl; counted = omega arith; next_inside = omega arith }

abbrev secret : List ℕ
secret = codes "changeme"

secret_bytes : All IsByte secret
secret_bytes = ground arith

accepted :
    (handle_login 100 101 9 (some (codes "changeme\n")) (some secret) (some (codes "7f")) full).0
    ≡ granted (codes "7f")
unfolding handle_login login_is_locked secure_equals differences
accepted = refl

session_is_valid-add_example :
    (session_is_valid (session_add (codes "7f") full) (codes "7f") ≡ true)
    × IsTable (session_add (codes "7f") full)
session_is_valid-add_example =
    session_is_valid-add full (codes "7f") full-IsTable (ground arith) (omega arith) (omega arith)

handle_login_granted_example :
    IsGranted 100 (some (codes "changeme\n")) (some secret) (some (codes "7f")) full (codes "7f")
handle_login_granted_example =
    handle_login_granted 100 101 9 (some (codes "changeme\n")) (some secret) (some (codes "7f"))
      full (codes "7f") secret_bytes secret_bytes accepted
