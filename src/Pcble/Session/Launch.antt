-- ===== src/Pcble/Session/Launch.antt =====
-- Starting a helper in server/output_pcble.c: the tests of what comes from outside, and the
-- command line.
pub mod Words
pub mod Command
pub mod Safe
use capture2cloud.Base.{
  ℕ, suc, ◌+◌, ◌%◌, List, [], ◌∷◌, ◌++◌, Bool, true, false, not, ◌&&◌, ◌||◌, ◌==◌, leb, ltb,
  if◌then◌else◌, Option, none, some, length, get_or, drop, codes,
}
use capture2cloud.Pcble.Session.{Session, Act, launch, is_running, set_pair_mode}

-- `isdigit` and `isxdigit` of the C locale.
abbrev pub is_digit : ℕ → Bool
is_digit c = leb b'0' c && leb c b'9'

abbrev pub is_xdigit : ℕ → Bool
is_xdigit c = is_digit c || ((leb b'a' c && leb c b'f') || (leb b'A' c && leb c b'F'))

unfoldable pub all_digits : List ℕ → Bool
all_digits [] = true
all_digits (c ∷ cs) = is_digit c && all_digits cs

unfoldable pub same_text : List ℕ → List ℕ → Bool
same_text [] [] = true
same_text [] (d ∷ ds) = false
same_text (c ∷ cs) [] = false
same_text (c ∷ cs) (d ∷ ds) = (c == d) && same_text cs ds

unfoldable pub starts_with : List ℕ → List ℕ → Bool
starts_with [] text = true
starts_with (p ∷ ps) [] = false
starts_with (p ∷ ps) (c ∷ cs) = (p == c) && starts_with ps cs

unfoldable pub valid_hci : List ℕ → Bool
unfolding starts_with all_digits
valid_hci id =
    starts_with (codes "hci") id && is_digit (get_or (drop 3 id) 0 0) && all_digits (drop 3 id)

-- The characters of an address from the place `i` on.
unfoldable pub mac_from : ℕ → List ℕ → Bool
mac_from i [] = true
mac_from i (c ∷ cs) = (if (i + 1) % 3 == 0 then c == b':' else is_xdigit c) && mac_from (i + 1) cs

unfoldable pub valid_mac : List ℕ → Bool
unfolding mac_from
valid_mac address = (length address == 17) && mac_from 0 address

unfoldable pub all_xdigits : List ℕ → Bool
all_xdigits [] = true
all_xdigits (c ∷ cs) = is_xdigit c && all_xdigits cs

unfoldable pub valid_color : List ℕ → Bool
unfolding all_xdigits
valid_color value = (length value == 6) && all_xdigits value

-- The arguments of `output_pcble_start_session`.
pub record Request : Type 0 where
  pub primary : List ℕ
  pub secondary : List ℕ
  pub profile : List ℕ
  pub reconnect : List ℕ
  pub body : List ℕ
  pub buttons : List ℕ
  pub left_grip : List ℕ
  pub right_grip : List ℕ
  pub verbose : Bool

abbrev pub is_pair : Request → Bool
is_pair r = same_text r.profile (codes "joycon-pair")

abbrev pub reconnects : Request → Bool
reconnects r = not (length r.reconnect == 0)

-- The tests, in the order in which they are made; `none` is that all are passed.
pub data Refusal : Type 0 where
  bad_adapter bad_profile bad_pair bad_address bad_color not_installed already_running : Refusal
  not_started : Refusal

unfoldable pub refusal : Request → Option Refusal
unfolding same_text valid_hci valid_mac valid_color
refusal r =
    if not (valid_hci r.primary)
    then some bad_adapter
    else if not (same_text r.profile (codes "pro") || is_pair r)
    then some bad_profile
    else if is_pair r && (not (valid_hci r.secondary) || same_text r.primary r.secondary)
    then some bad_pair
    else if reconnects r && not (valid_mac r.reconnect)
    then some bad_address
    else if not (is_pair r)
        && (not (valid_color r.body)
            || (not (valid_color r.buttons)
                || (not (valid_color r.left_grip) || not (valid_color r.right_grip))))
    then some bad_color
    else none

unfoldable pub arguments : Request → List (List ℕ)
arguments r =
    codes "pkexec"
      ∷ codes "/usr/local/libexec/capture2cloud/pcble/run-classic.sh"
      ∷ r.primary
      ∷ codes "--desktop"
      ∷ codes "--profile"
      ∷ r.profile
      ∷ (if is_pair r
          then codes "--secondary" ∷ r.secondary ∷ []
          else codes "--body-color"
            ∷ r.body
            ∷ codes "--button-color"
            ∷ r.buttons
            ∷ codes "--left-grip-color"
            ∷ r.left_grip
            ∷ codes "--right-grip-color"
            ∷ r.right_grip
            ∷ [])
    ++ ((if reconnects r then codes "--reconnect" ∷ r.reconnect ∷ [] else [])
        ++ (if r.verbose then codes "--verbose" ∷ [] else []))

-- The system: whether the runner is installed, and the process that a launch makes.
pub record Host : Type 0 where
  pub installed : Bool
  pub spawn : Option ℕ

abbrev pub Started : Type 0
Started = Option Refusal × Session × List Act

-- `none` is success. Each launch that is tried stands among the acts.
unfoldable pub spawned : Request → Option ℕ → Session → Started
spawned r none s = (some not_started, s, launch (arguments r) ∷ [])
spawned r (some process) s = (
  none,
  set_pair_mode (is_pair r) (record s {
    launcher = some process;
    session_stopping = false;
    reconnect_active = reconnects r;
  }),
  launch (arguments r) ∷ [],
)

unfoldable pub start_checked : Option Refusal → Host → Request → Session → Started
unfolding spawned
start_checked (some error) h r s = (some error, s, [])
start_checked none h r s =
    if not h.installed
    then (some not_installed, s, [])
    else if is_running s.launcher
    then (some already_running, s, [])
    else spawned r h.spawn s

unfoldable pub output_pcble_start_session : Host → Request → Session → Started
unfolding refusal start_checked
output_pcble_start_session h r s = start_checked (refusal r) h r s

-- The settings that a reconnect reads, with `resolve_hci_for_address` as a parameter.
pub record Saved : Type 0 where
  pub controller : List ℕ
  pub switch_address : List ℕ
  pub paired_adapter : List ℕ
  pub body_color : List ℕ
  pub button_color : List ℕ
  pub left_grip_color : List ℕ
  pub right_grip_color : List ℕ
  pub is_verbose : Bool

pub data ReconnectRefusal : Type 0 where
  only_pro no_address no_adapter not_present : ReconnectRefusal
  start_refused : Refusal → ReconnectRefusal

abbrev pub reconnect_request : Saved → List ℕ → Request
reconnect_request c hci = record {
  primary = hci;
  secondary = [];
  profile = codes "pro";
  reconnect = c.switch_address;
  body = c.body_color;
  buttons = c.button_color;
  left_grip = c.left_grip_color;
  right_grip = c.right_grip_color;
  verbose = c.is_verbose;
}

abbrev pub Reconnected : Type 0
Reconnected = Option ReconnectRefusal × Session × List Act

abbrev pub reconnected : Started → Reconnected
reconnected (some error, s, acts) = (some (start_refused error), s, acts)
reconnected (none, s, acts) = (none, s, acts)

unfoldable pub reconnect_on : Option (List ℕ) → Host → Saved → Session → Reconnected
reconnect_on none h c s = (some not_present, s, [])
reconnect_on (some hci) h c s =
    reconnected (output_pcble_start_session h (reconnect_request c hci) s)

unfoldable pub output_pcble_start_saved_reconnect :
    (List ℕ → Option (List ℕ)) → Host → Saved → Session → Reconnected
unfolding reconnect_on
output_pcble_start_saved_reconnect resolve h c s =
    if not (same_text c.controller (codes "pro"))
    then (some only_pro, s, [])
    else if not (valid_mac c.switch_address)
    then (some no_address, s, [])
    else if not (valid_mac c.paired_adapter)
    then (some no_adapter, s, [])
    else reconnect_on (resolve c.paired_adapter) h c s
