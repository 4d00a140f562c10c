-- ===== src/PadInput/Bind.antt =====
-- A binding keeps the button map without repetition.
use capture2cloud.Base.{
  ℕ, ◌+◌, ◌<◌, ◌≡◌, ◌≢◌, refl, sym, ap, ◌∙◌, inl, inr, arith, Bool, true, false, not, ◌||◌, leb,
  ◌==◌, if◌then◌else◌, List, some, Bool-cases, if_holds, set, length, length-set, get_or-set_self,
  All-set, ==_iff, pos, u8,
}
use capture2cloud.PadInput.{
  InputConfig, index_from, map_is_good, bindable_slot, rebound, input_config_sanitize,
  input_config_reset_bindings, input_config_physical_for_slot, input_config_bind, button_count,
}
use capture2cloud.PadInput.Sanitize.{sanitize-HasLimits}
use capture2cloud.PadInput.Seen.{at_button, Distinct, IsBinding, good-IsBinding}
use capture2cloud.PadInput.Swap.{
  index_from_lem, swapped, swapped_inj, at_button-set, at_button-swap, Distinct-renamed,
  Distinct-fresh, All-at_button, swapped_inside, swapped_self,
}

-- What a binding promises of the new map.
Rebinds : ℕ → ℕ → List ℕ → List ℕ → Type 0
Rebinds p v old new = IsBinding new × (length new ≡ length old) × (at_button new p ≡ v)

abbrev IsBindable : ℕ → Type 0
IsBindable s = bindable_slot s ≡ true

rebound_fresh :
    (old : List ℕ) (p v : ℕ)
    → IsBinding old
    → IsBindable v
    → p < length old
    → ((k : ℕ) → k < length old → at_button old k ≢ v)
    → Rebinds p v old (set old p v)
unfolding Rebinds
rebound_fresh old p v h b hp fresh = (
  record {
    distinct = Distinct-fresh old p v h.distinct hp fresh;
    bindable = All-set IsBindable old p v h.bindable b;
  },
  length-set old p v,
  get_or-set_self old p v 0 hp,
)

rebound_swap :
    (old : List ℕ) (p d v : ℕ)
    → IsBinding old
    → IsBindable v
    → p < length old
    → d < length old
    → at_button old d ≡ v
    → Rebinds p v old (set (set old p v) d (at_button old p))
unfolding Rebinds
rebound_swap old p d v h b hp hd e =
    let new = set (set old p v) d (at_button old p) in
    let len = length-set (set old p v) d (at_button old p) ∙ length-set old p v in
    let bound = All-set IsBindable old p v h.bindable b in
    (
      record {
        distinct =
            Distinct-renamed old new (swapped p d) h.distinct len (swapped_inj p d)
              (λ i. swapped_inside p d (length old) i hp hd)
              (λ i. at_button-swap old p d v i hp hd e);
        bindable =
            All-set IsBindable (set old p v) d (at_button old p) bound
              (All-at_button IsBindable old p h.bindable hp);
      },
      len,
      at_button-swap old p d v p hp hd e ∙ ap (at_button old) (swapped_self p d) ∙ e,
    )

-- A binding to the button's own slot.
rebound_same :
    (old : List ℕ) (p v : ℕ)
    → IsBinding old
    → IsBindable v
    → p < length old
    → at_button old p ≡ v
    → Rebinds p v old (set old p v)
unfolding Rebinds Distinct
rebound_same old p v h b hp e =
    let len = length-set old p v in
    (
      record {
        distinct =
            Distinct-renamed old (set old p v) (λ i. i) h.distinct len (λ i j q. q) (λ i lt. lt)
              (λ i. at_button-set old p v i hp ∙ unchanged i (i == p) refl);
        bindable = All-set IsBindable old p v h.bindable b;
      },
      len,
      get_or-set_self old p v 0 hp,
    )
  where
    unchanged :
        (i : ℕ) (c : Bool) → c ≡ (i == p) → (if c then v else at_button old i) ≡ at_button old i
    unchanged i true q = sym e ∙ ap (at_button old) (sym ((==_iff i p).0 (sym q)))
    unchanged i false q = refl

bindable_byte : (v : ℕ) → IsBindable v → u8 v ≡ v
unfolding bindable_slot
bindable_byte v h = ground arith

rebound_lem :
    (old : List ℕ) (p v : ℕ)
    → IsBinding old
    → IsBindable v
    → p < length old
    → Rebinds p v old (rebound old (index_from 0 old v) p v)
unfolding rebound
rebound_lem old p v h b hp = elim (index_from_lem 0 old v) [
  | inl fresh ↦ rw (fresh.0, bindable_byte v b) (rebound_fresh old p v h b hp fresh.1)
  | inr found ↦
      let k : some (0 + found.0) ≡ some found.0 = ap some (omega arith) in
      elim (Bool-cases (found.0 == p)) [
        | inl same ↦
            let e : at_button old p ≡ v = rw (← (==_iff found.0 p).0 same) found.3 in
            rw (found.1 ∙ k, same, bindable_byte v b) (rebound_same old p v h b hp e)
        | inr other ↦
            rw (found.1 ∙ k, other, bindable_byte v b)
              (rebound_swap old p found.0 v h b hp found.2 found.3)
      ]
]

length-sanitize :
    (config : InputConfig)
    → length config.button_map ≡ button_count
    → length (input_config_sanitize config).button_map ≡ button_count
unfolding input_config_sanitize input_config_reset_bindings
length-sanitize config h =
    if_holds (λ (c : InputConfig). length c.button_map ≡ button_count)
      (map_is_good 0 config.button_map) h refl

-- Binding one of the 16 buttons to a bindable slot gives the button that slot, whatever the
-- settings were: afterwards no two buttons have the same slot, all slots are bindable, and the
-- button is the one found for the slot.
pub bind-IsBinding :
    (config : InputConfig) (p v : ℕ)
    → length config.button_map ≡ button_count
    → p < button_count
    → bindable_slot v ≡ true
    → let after = input_config_bind config (pos p) (pos v) in
      IsBinding after.button_map
      × (length after.button_map ≡ button_count)
      × (at_button after.button_map p ≡ v)
      × (input_config_physical_for_slot after v ≡ some p)
unfolding input_config_bind input_config_physical_for_slot Rebinds Distinct
bind-IsBinding config p v len hp b =
    let clean = input_config_sanitize config in
    let old = clean.button_map in
    let size = length-sanitize config len in
    let guard : (leb button_count p || not (bindable_slot v)) ≡ false = rw b (ground arith) in
    let r =
      rebound_lem old p v (good-IsBinding 0 old (sanitize-HasLimits config).1) b (rw size hp) in
    let new = rebound old (index_from 0 old v) p v in
    let inside : p < length new = omega (arith, r.1, size, hp) in
    let found : index_from 0 new v ≡ some p = elim (index_from_lem 0 new v) [
      | inl none_found ↦ absurd (none_found.1 p inside r.2)
      | inr k ↦ k.1 ∙ ap some (omega (arith, (r.0.distinct) k.0 p k.2 inside (k.3 ∙ sym r.2)))
    ] in
    rw guard (r.0, r.1 ∙ size, r.2, found)
