-- ===== src/Pcble/Session/Launch/Command.antt =====
-- The command line of the helper of server/output_pcble.c, which runs as root: what stands on it
-- passed the tests.
use capture2cloud.Base.{
  ℕ, List, [], ◌∷◌, ◌++◌, Bool, true, false, not, ◌&&◌, ◌||◌, ◌==◌, ◌≡◌, ◌≢◌, ◌⊎◌, inl, inr, refl,
  if_cases, if◌then◌else◌, Bool-cases, Option, none, some, length, codes, arith,
}
use capture2cloud.Pcble.Session.Launch.{
  same_text, valid_hci, valid_mac, valid_color, Request, is_pair, reconnects, Refusal, refusal,
  bad_adapter, bad_profile, bad_pair, bad_address, bad_color, arguments,
}
use capture2cloud.Pcble.Session.Launch.Words.{
  IsHciName, IsColor, IsMacAddress, same_text_lem, same_text_refl, valid_hci-IsHciName,
  valid_color-IsColor, valid_mac-IsMacAddress,
}

-- What the tests make sure of.
pub record IsSafe (r : Request) : Type 0 where
  adapter : valid_hci r.primary ≡ true
  known_profile : (same_text r.profile (codes "pro") || is_pair r) ≡ true
  two_adapters :
      is_pair r ≡ true → (valid_hci r.secondary ≡ true) × (same_text r.primary r.secondary ≡ false)
  address : (reconnects r ≡ false) ⊎ (valid_mac r.reconnect ≡ true)
  colors :
      is_pair r ≡ false
      → (valid_color r.body ≡ true)
        × (valid_color r.buttons ≡ true)
        × (valid_color r.left_grip ≡ true)
        × (valid_color r.right_grip ≡ true)

pub not-false : (b : Bool) → not b ≡ false → b ≡ true
not-false true e = refl
not-false false e = cc

pair_part : (p a b : Bool) → (p && (not a || b)) ≡ false → p ≡ true → (a ≡ true) × (b ≡ false)
pair_part p a b h e = ground arith

address_part : (p a : Bool) → (p && not a) ≡ false → (p ≡ false) ⊎ (a ≡ true)
address_part true true h = inr refl
address_part true false h = cc
address_part false a h = inl refl

color_part :
    (p a b c d : Bool)
    → (not p && (not a || (not b || (not c || not d)))) ≡ false
    → p ≡ false
    → (a ≡ true) × (b ≡ true) × (c ≡ true) × (d ≡ true)
color_part p a b c d h e = ground arith

pub refusal-IsSafe : (r : Request) → refusal r ≡ none → IsSafe r
unfolding refusal
refusal-IsSafe r =
    let P : Option Refusal → Type 0 = λ o. o ≡ none → IsSafe r in
    let pair = is_pair r in
    let never : (e : Refusal) → P (some e) = λ e h. cc in
    if_cases P (not (valid_hci r.primary)) (λ _. never bad_adapter)
      (λ adapter.
        if_cases P (not (same_text r.profile (codes "pro") || pair)) (λ _. never bad_profile)
          (λ profile.
            if_cases P (pair && (not (valid_hci r.secondary) || same_text r.primary r.secondary))
              (λ _. never bad_pair)
              (λ two.
                if_cases P (reconnects r && not (valid_mac r.reconnect)) (λ _. never bad_address)
                  (λ address.
                    if_cases P
                      (not pair
                        && (not (valid_color r.body)
                            || (not (valid_color r.buttons)
                                || (not (valid_color r.left_grip)
                                    || not (valid_color r.right_grip)))))
                      (λ _. never bad_color)
                      (λ color _. record {
                        adapter = not-false (valid_hci r.primary) adapter;
                        known_profile =
                            not-false (same_text r.profile (codes "pro") || pair) profile;
                        two_adapters =
                            pair_part pair (valid_hci r.secondary) (same_text r.primary r.secondary)
                              two;
                        address = address_part (reconnects r) (valid_mac r.reconnect) address;
                        colors =
                            color_part pair (valid_color r.body) (valid_color r.buttons)
                              (valid_color r.left_grip) (valid_color r.right_grip) color;
                      })))))

-- The words that the runner is called with, which runs as root.
abbrev called : Request → List (List ℕ)
called r =
    codes "pkexec"
    ∷ codes "/usr/local/libexec/capture2cloud/pcble/run-classic.sh"
    ∷ r.primary
    ∷ codes "--desktop"
    ∷ codes "--profile"
    ∷ []

-- The last words: an address to connect to again, where there is one, and the wish for more output.
pub data IsTail (r : Request) : List (List ℕ) → Type 0 where
  anew : r.reconnect ≡ [] → r.verbose ≡ false → IsTail r []
  anew_verbose : r.reconnect ≡ [] → r.verbose ≡ true → IsTail r (codes "--verbose" ∷ [])
  again :
      IsMacAddress r.reconnect
      → r.verbose ≡ false
      → IsTail r (codes "--reconnect" ∷ r.reconnect ∷ [])
  again_verbose :
      IsMacAddress r.reconnect
      → r.verbose ≡ true
      → IsTail r (codes "--reconnect" ∷ r.reconnect ∷ codes "--verbose" ∷ [])

-- The command line of a request: for a Pro Controller with its four colours, for a pair of Joy-Cons
-- with the other adapter.
pub data IsCommand (r : Request) (words : List (List ℕ)) : Type 0 where
  pro :
      (tail : List (List ℕ))
      → IsHciName r.primary
      → IsColor r.body
      → IsColor r.buttons
      → IsColor r.left_grip
      → IsColor r.right_grip
      → IsTail r tail
      → words
        ≡ called r
          ++ codes "pro"
            ∷ codes "--body-color"
            ∷ r.body
            ∷ codes "--button-color"
            ∷ r.buttons
            ∷ codes "--left-grip-color"
            ∷ r.left_grip
            ∷ codes "--right-grip-color"
            ∷ r.right_grip
            ∷ tail
      → IsCommand r words
  pair :
      (tail : List (List ℕ))
      → IsHciName r.primary
      → IsHciName r.secondary
      → r.primary ≢ r.secondary
      → IsTail r tail
      → words ≡ called r ++ codes "joycon-pair" ∷ codes "--secondary" ∷ r.secondary ∷ tail
      → IsCommand r words

abbrev tail_of : Request → List (List ℕ)
tail_of r =
    (if reconnects r then codes "--reconnect" ∷ r.reconnect ∷ [] else [])
    ++ (if r.verbose then codes "--verbose" ∷ [] else [])

no_address : (r : Request) → reconnects r ≡ false → r.reconnect ≡ []
no_address r e = empty r.reconnect (not-false (length r.reconnect == 0) e)
  where
    empty : (w : List ℕ) → (length w == 0) ≡ true → w ≡ []
    empty [] h = refl
    empty (c ∷ cs) h = absurd (ground arith)

valid_address : (r : Request) → IsSafe r → reconnects r ≡ true → valid_mac r.reconnect ≡ true
valid_address r s on = elim s.address [ inl off ↦ cc | inr mac ↦ mac ]

tail_of-IsTail : (r : Request) → IsSafe r → IsTail r (tail_of r)
tail_of-IsTail r s =
    let verbosely : List (List ℕ) = if r.verbose then codes "--verbose" ∷ [] else [] in
    let address = codes "--reconnect" ∷ r.reconnect ∷ [] in
    if_cases (λ (ws : List (List ℕ)). IsTail r (ws ++ verbosely)) (reconnects r)
      (λ on.
        let mac = valid_mac-IsMacAddress r.reconnect (valid_address r s on) in
        if_cases (λ (vs : List (List ℕ)). IsTail r (address ++ vs)) r.verbose (again_verbose mac)
          (again mac))
      (λ off.
        let none_given = no_address r off in
        if_cases (IsTail r) r.verbose (anew_verbose none_given) (anew none_given))

other_adapter : (a b : List ℕ) → same_text a b ≡ false → a ≢ b
other_adapter a b e p = let same : same_text a b ≡ true = rw (← p) (same_text_refl a) in cc

pro_arguments : (r : Request) → IsSafe r → is_pair r ≡ false → IsCommand r (arguments r)
unfolding arguments
pro_arguments r s one =
    let colors = s.colors one in
    let profile : r.profile ≡ codes "pro" =
      same_text_lem r.profile (codes "pro") (ground (arith, s.known_profile)) in
    pro (tail_of r) (valid_hci-IsHciName r.primary s.adapter) (valid_color-IsColor r.body colors.0)
      (valid_color-IsColor r.buttons colors.1) (valid_color-IsColor r.left_grip colors.2)
      (valid_color-IsColor r.right_grip colors.3) (tail_of-IsTail r s) (rw (one, profile) refl)

pair_arguments : (r : Request) → IsSafe r → is_pair r ≡ true → IsCommand r (arguments r)
unfolding arguments
pair_arguments r s two =
    let other = s.two_adapters two in
    let profile : r.profile ≡ codes "joycon-pair" =
      same_text_lem r.profile (codes "joycon-pair") two in
    pair (tail_of r) (valid_hci-IsHciName r.primary s.adapter)
      (valid_hci-IsHciName r.secondary other.0) (other_adapter r.primary r.secondary other.1)
      (tail_of-IsTail r s) (rw (two, profile) refl)

pub arguments-IsCommand : (r : Request) → IsSafe r → IsCommand r (arguments r)
arguments-IsCommand r s = elim (Bool-cases (is_pair r)) [
  | inl two ↦ pair_arguments r s two
  | inr one ↦ pro_arguments r s one
]
