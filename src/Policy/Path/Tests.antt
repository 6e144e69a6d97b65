-- ===== src/Policy/Path/Tests.antt =====
-- Paths at concrete inputs.
use forme_agent.Base.{[], ◌∷◌, some, true, false, ◌≡◌, refl, ℕ_discrete}
use forme_agent.Base.Text.{codes}
use forme_agent.Policy.Path.{components, normalized_path, path_within, name_discrete}
use forme_agent.Policy.Path.Components.{IsNormal, components-IsNormal, relative_becomes_absolute}
use forme_agent.Policy.Path.Within.{Inside, path-within_iff}

srv_holds : path_within (codes "/srv") (codes "/SRV/a/../b") ≡ true
unfolding path_within ℕ_discrete name_discrete
srv_holds = refl

srv_not_sibling : path_within (codes "/srv") (codes "/srv2") ≡ false
unfolding path_within ℕ_discrete name_discrete
srv_not_sibling = refl

path-within_iff_example : Inside (codes "/srv") (codes "/SRV/a/../b")
path-within_iff_example = (path-within_iff (codes "/srv") (codes "/SRV/a/../b")).0 srv_holds

srv_components : components (codes "/srv//./b") ≡ some ([] ∷ codes "srv" ∷ codes "b" ∷ [])
unfolding components ℕ_discrete
srv_components = refl

components-IsNormal_example : IsNormal ([] ∷ codes "srv" ∷ codes "b" ∷ [])
components-IsNormal_example =
    components-IsNormal (codes "/srv//./b") ([] ∷ codes "srv" ∷ codes "b" ∷ []) srv_components

relative_becomes_absolute_example :
    normalized_path (codes ".//etc") ≡ normalized_path (codes "/etc")
relative_becomes_absolute_example = relative_becomes_absolute (codes "etc")
