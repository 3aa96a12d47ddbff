-- ===== src/Roles/Examples.antt =====
-- Names that the two patterns accept and refuse.
use orchd_ai.Prelude.{◌≡◌, refl, true, false}
use orchd_ai.Roles.{is_agent, is_principal}

agent_names :
    (is_agent "junior-1" ≡ true)
    × (is_agent "" ≡ false)
    × (is_agent "-a" ≡ false)
    × (is_principal "a b" ≡ false)
unfolding is_agent is_principal
agent_names = (refl, refl, refl, refl)
