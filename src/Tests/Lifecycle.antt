-- ===== src/Tests/Lifecycle.antt =====
-- The theorems of Lifecycle on single transitions.
use agent_notes.Prelude.{◌∷◌, ◌≡◌, refl, ◌⊎◌, true, ok, some, ◌↔◌, []}
use agent_notes.Lifecycle.{
  opened, claimed, in_review, in_human_review, done, closed, accept, reopen, close_from_open,
  map_legacy_to_canonical, is_canonical, is_valid, other, transition_for, in_progress, deferred,
}
use agent_notes.Lifecycle.Transitions.{
  completion_sources, terminal_exits, transition_targets, Reach, done_reachable, legacy_mapping,
  StandFor,
}
use agent_notes.Tests.{execute}

completion_sources_example : (transition_for in_human_review done ≡ ok (some accept)) ↔ (
    (in_human_review ≡ in_human_review) × (accept ≡ accept)
    ⊎ ((in_human_review ≡ opened) ⊎ (in_human_review ≡ claimed)) × (accept ≡ close_from_open))
completion_sources_example = completion_sources in_human_review accept

terminal_exits_example : (reopen ≡ reopen) × (opened ≡ opened)
unfolding execute
terminal_exits_example = terminal_exits done opened reopen refl refl

transition_targets_example :
    (is_valid in_human_review ≡ true) × ((is_canonical done ≡ true) ⊎ (done ≡ closed))
unfolding execute
transition_targets_example = transition_targets in_human_review done accept refl

done_reachable_example : Reach in_review done
unfolding execute
done_reachable_example = done_reachable in_review refl

legacy_mapping_example :
    (StandFor opened ("new" ∷ "proposed" ∷ "decision-pending" ∷ [])
      × StandFor in_progress ("active" ∷ [])
      × StandFor in_review ("under_review" ∷ [])
      × StandFor done ("resolved" ∷ "implemented" ∷ "accepted" ∷ [])
      × StandFor deferred ("wont_fix" ∷ "wontfix" ∷ "duplicate" ∷ "obsolete" ∷ "rejected" ∷ []))
    × (map_legacy_to_canonical closed ≡ done)
    × (map_legacy_to_canonical in_review ≡ in_review)
    × ((is_canonical (map_legacy_to_canonical (other "wontfix")) ≡ true)
        ⊎ (map_legacy_to_canonical (other "wontfix") ≡ other "wontfix"))
    × (map_legacy_to_canonical (map_legacy_to_canonical (other "wontfix"))
        ≡ map_legacy_to_canonical (other "wontfix"))
unfolding execute
legacy_mapping_example = legacy_mapping (other "wontfix") in_review refl
