-- ===== src/PowerShell.antt =====
-- The literals of PowerShell that the services put values in: `_ps_literal` of
-- server/app/services/job_service.py and server/app/services/host_deployment_service.py, `_ps_quote` of
-- server/app/services/winrm_service.py, `_ps_single_quote` of server/app/services/vm_control_service.py.
pub mod Quoting
use aether_v.Jobs.LineBuffer.{Text}
use aether_v.Jobs.Service.Texts.{codes}
use aether_v.Prelude.{ℕ, Option, none, some, List, [], ◌∷◌, ◌++◌, if◌then◌else◌, nat_eq, map}

abbrev pub quote : ℕ
quote = 39

-- value.replace("'", "''")
abbrev pub double_quotes : Text → Text
double_quotes [] = []
double_quotes (c ∷ s) =
    let rest = double_quotes s in if nat_eq c quote then quote ∷ quote ∷ rest else c ∷ rest

unfoldable pub ps_literal : Text → Text
ps_literal value = quote ∷ (double_quotes value ++ quote ∷ [])

-- The value of `_ps_single_quote` may be None.
unfoldable pub ps_single_quote : Option Text → Text
unfolding ps_literal
ps_single_quote none = ps_literal []
ps_single_quote (some value) = ps_literal value

-- ', '.join(texts)
abbrev pub join_commas : List Text → Text
join_commas [] = []
join_commas (t ∷ []) = t
join_commas (t ∷ u ∷ ts) = t ++ codes ", " ++ join_commas (u ∷ ts)

unfoldable pub ps_array_literal : List Text → Text
unfolding ps_literal
ps_array_literal values = codes "@(" ++ join_commas (map ps_literal values) ++ codes ")"
