-- ===== src/Pcble/Session/Launch/Words.antt =====
-- What server/output_pcble.c lets through from outside: the words that its tests accept.
use capture2cloud.Base.{
  ℕ, zero, suc, ◌+◌, ◌%◌, ◌≤◌, ◌<◌, List, [], ◌∷◌, ◌++◌, Bool, true, ◌&&◌, ◌≡◌, ◌⊎◌, refl, ap₂, All,
  ◌==◌, length, get_or, drop, codes, if◌then◌else◌, arith,
}
use mathlib.Core.Path.{subst}
use capture2cloud.Pcble.Session.Launch.{
  is_digit, is_xdigit, all_digits, same_text, starts_with, valid_hci, mac_from, valid_mac,
  all_xdigits, valid_color,
}

abbrev pub IsDigit : ℕ → Type 0
IsDigit c = (b'0' ≤ c) × (c ≤ b'9')

abbrev pub IsHexDigit : ℕ → Type 0
IsHexDigit c = IsDigit c ⊎ (((b'a' ≤ c) × (c ≤ b'f')) ⊎ ((b'A' ≤ c) × (c ≤ b'F')))

-- `hci` and a number.
pub record IsHciName (word : List ℕ) : Type 0 where
  pub first : ℕ
  pub others : List ℕ
  pub digits : All IsDigit (first ∷ others)
  pub spelled : word ≡ codes "hci" ++ first ∷ others

-- Six hexadecimal digits.
pub record IsColor (word : List ℕ) : Type 0 where
  pub six : length word ≡ 6
  pub hexadecimal : All IsHexDigit word

-- A character of a MAC address by its place: a colon after each two hexadecimal digits.
abbrev pub IsMacCharacter : ℕ → ℕ → Type 0
IsMacCharacter i c = ((i % 3 ≡ 2) × (c ≡ b':')) ⊎ ((i % 3 < 2) × IsHexDigit c)

pub record IsMacAddress (word : List ℕ) : Type 0 where
  pub seventeen : length word ≡ 17
  pub character : (i : ℕ) → i < 17 → IsMacCharacter i (get_or word i 0)

both : (a b : Bool) → (a && b) ≡ true → (a ≡ true) × (b ≡ true)
both a b e = ground arith

pub same_text_lem : (a b : List ℕ) → same_text a b ≡ true → a ≡ b
unfolding same_text
same_text_lem [] [] e = refl
same_text_lem [] (d ∷ ds) e = cc
same_text_lem (c ∷ cs) [] e = cc
same_text_lem (c ∷ cs) (d ∷ ds) e =
    let p = both (c == d) (same_text cs ds) e in
    let q : c ≡ d = ground (arith, p.0) in ap₂ (λ x xs. x ∷ xs) q (same_text_lem cs ds p.1)

pub same_text_refl : (a : List ℕ) → same_text a a ≡ true
unfolding same_text
same_text_refl [] = refl
same_text_refl (c ∷ cs) = let e : (c == c) ≡ true = ground arith in rw e (same_text_refl cs)

starts_with_lem : (p t : List ℕ) → starts_with p t ≡ true → t ≡ p ++ drop (length p) t
unfolding starts_with
starts_with_lem [] t e = refl
starts_with_lem (c ∷ cs) [] e = cc
starts_with_lem (c ∷ cs) (d ∷ ds) e =
    let p = both (c == d) (starts_with cs ds) e in
    let q : d ≡ c = ground (arith, p.0) in ap₂ (λ x xs. x ∷ xs) q (starts_with_lem cs ds p.1)

digit : (c : ℕ) → is_digit c ≡ true → IsDigit c
digit c e = ground arith

hex_digit : (c : ℕ) → is_xdigit c ≡ true → IsHexDigit c
hex_digit c e = ground arith

all_digits_lem : (cs : List ℕ) → all_digits cs ≡ true → All IsDigit cs
unfolding all_digits
all_digits_lem [] e = tt
all_digits_lem (c ∷ cs) e =
    let p = both (is_digit c) (all_digits cs) e in (digit c p.0, all_digits_lem cs p.1)

all_xdigits_lem : (cs : List ℕ) → all_xdigits cs ≡ true → All IsHexDigit cs
unfolding all_xdigits
all_xdigits_lem [] e = tt
all_xdigits_lem (c ∷ cs) e =
    let p = both (is_xdigit c) (all_xdigits cs) e in (hex_digit c p.0, all_xdigits_lem cs p.1)

numbered :
    (word rest : List ℕ)
    → word ≡ codes "hci" ++ rest
    → is_digit (get_or rest 0 0) ≡ true
    → all_digits rest ≡ true
    → IsHciName word
numbered word [] e d a = absurd (ground arith)
numbered word (c ∷ cs) e d a = record {
  first = c;
  others = cs;
  digits = all_digits_lem (c ∷ cs) a;
  spelled = e;
}

pub valid_hci-IsHciName : (word : List ℕ) → valid_hci word ≡ true → IsHciName word
unfolding valid_hci
valid_hci-IsHciName word e =
    let named = starts_with (codes "hci") word in
    let p = both (named && is_digit (get_or (drop 3 word) 0 0)) (all_digits (drop 3 word)) e in
    let q = both named (is_digit (get_or (drop 3 word) 0 0)) p.0 in
    numbered word (drop 3 word) (starts_with_lem (codes "hci") word q.0) q.1 p.1

pub valid_color-IsColor : (word : List ℕ) → valid_color word ≡ true → IsColor word
unfolding valid_color
valid_color-IsColor word e =
    let p = both (length word == 6) (all_xdigits word) e in
    record { six = ground (arith, p.0); hexadecimal = all_xdigits_lem word p.1 }

mac_character :
    (i c : ℕ) → (if (i + 1) % 3 == 0 then c == b':' else is_xdigit c) ≡ true → IsMacCharacter i c
mac_character i c e = ground arith

mac_from_lem :
    (i : ℕ) (cs : List ℕ)
    → mac_from i cs ≡ true
    → (k : ℕ) → k < length cs
    → IsMacCharacter (i + k) (get_or cs k 0)
unfolding mac_from
mac_from_lem i [] e k lt = absurd (omega arith)
mac_from_lem i (c ∷ cs) e zero lt =
    subst (λ n. IsMacCharacter n c) {x = i} {y = i + 0} (omega arith)
      (mac_character i c (both _ (mac_from (i + 1) cs) e).0)
mac_from_lem i (c ∷ cs) e (suc k) lt =
    let p = both (if (i + 1) % 3 == 0 then c == b':' else is_xdigit c) (mac_from (i + 1) cs) e in
    subst (λ n. IsMacCharacter n (get_or cs k 0)) {x = i + 1 + k} {y = i + suc k} (omega arith)
      (mac_from_lem (i + 1) cs p.1 k (omega arith))

pub valid_mac-IsMacAddress : (word : List ℕ) → valid_mac word ≡ true → IsMacAddress word
unfolding valid_mac
valid_mac-IsMacAddress word e =
    let p = both (length word == 17) (mac_from 0 word) e in
    let n : length word ≡ 17 = ground (arith, p.0) in
    record {
      seventeen = n;
      character = λ i lt.
          subst (λ k. IsMacCharacter k (get_or word i 0)) {x = 0 + i} {y = i} (omega arith)
            (mac_from_lem 0 word p.1 i (omega arith));
    }
