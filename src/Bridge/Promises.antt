-- ===== src/Bridge/Promises.antt =====
-- The bridge as its callers see it: a map from sources to states, and what reaches the backend.
use capture2cloud.Base.{
  ℕ, ◌≡◌, ap, ◌∙◌, true, ◌&&◌, ◌==◌, map, none, some, length, length-map, if◌then◌else◌, replicate,
  pos,
}
use capture2cloud.Controller.{ControllerState, state_count}
use capture2cloud.Controller.Shaping.{Floats}
use capture2cloud.Bridge.{
  expired, freed, Backend, Bridge, recombine, sent, gamepad_bridge_update, gamepad_bridge_forget,
}
use capture2cloud.Bridge.Table.{
  view, Unique, fresh, view-expired, view-freed, sources-merge_sources,
}
use capture2cloud.Bridge.Operations.{has_room, entry_of, condition, after_update, view-after_update}

-- An update by a source, while a backend is there: afterwards every other source is found with
-- what it had, unless it is too old; the source is found with the new state, or as before where
-- the table has no room for it; keys stay unique and the table keeps its size.
pub view-update :
    (f : Floats) (now later source key : ℕ) (state : ControllerState) (b : Bridge)
    (backend : Backend)
    → b.backend ≡ some backend
    → b.mutex ≡ true
    → Unique b.sources
    → let after = (gamepad_bridge_update f now later source state b).0 in
      (view key after.sources
        ≡ fresh later (
            if (key == source) && has_room source b.sources
            then some (entry_of now source state)
            else view key b.sources))
      × Unique after.sources
      × (length after.sources ≡ length b.sources)
unfolding gamepad_bridge_update sent recombine condition
view-update f now later source key state b backend e m u =
    let table = after_update now source state b.sources in
    let written = view-after_update now source key state b.sources u in
    let aged = view-expired later key table written.1 in
    let swept = sources-merge_sources later table (replicate state_count (pos 0)) in
    rw (e, m, swept)
      (aged.0 ∙ ap (fresh later) written.0, aged.1, length-map (expired later) table ∙ written.2)

-- Forgetting a source, while a backend is there: the source is not found afterwards, every other
-- one is found with what it had, unless it is too old, and keys stay unique.
pub view-forget :
    (f : Floats) (now source key : ℕ) (b : Bridge) (backend : Backend)
    → b.backend ≡ some backend
    → b.mutex ≡ true
    → Unique b.sources
    → let after = (gamepad_bridge_forget f now source b).0 in
      (view key after.sources ≡ fresh now (if key == source then none else view key b.sources))
      × Unique after.sources
      × (length after.sources ≡ length b.sources)
unfolding gamepad_bridge_forget sent recombine
view-forget f now source key b backend e m u =
    let table = map (freed source) b.sources in
    let left = view-freed source key b.sources u in
    let aged = view-expired now key table left.1 in
    let swept = sources-merge_sources now table (replicate state_count (pos 0)) in
    rw (e, m, swept)
      (
        aged.0 ∙ ap (fresh now) left.0,
        aged.1,
        length-map (expired now) table ∙ length-map (freed source) b.sources,
      )
