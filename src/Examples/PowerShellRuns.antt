-- ===== src/Examples/PowerShellRuns.antt =====
-- The literals of server/app/services/vm_control_service.py on two names.
use aether_v.Jobs.LineBuffer.{Text}
use aether_v.Jobs.Service.Texts.{codes}
use aether_v.PowerShell.Quoting.{read_literal, literal_reads}
use aether_v.PowerShell.{ps_literal, ps_single_quote}
use aether_v.Prelude.{ℕ, ◌≡◌, refl, Bool, ◌||◌, ◌&&◌, some, none, [], ◌∷◌, ◌++◌, leb, nat_eq}

-- The apostrophe and the four typographic quotes.
abbrev is_quote : ℕ → Bool
is_quote c = nat_eq c 39 || (leb 0x2018 c && leb c 0x201b)

abbrev name : Text
name = codes "web'; calc"

literal_reads_example :
    (read_literal is_quote (ps_single_quote (some name) ++ codes " -Name")
      ≡ some (name, codes " -Name"))
    × (ps_single_quote (some name) ≡ ps_literal name)
    × (read_literal is_quote (ps_single_quote none ++ codes " -Name") ≡ some ([], codes " -Name"))
literal_reads_example =
    literal_reads is_quote name (codes " -Name") refl
      (refl, (refl, (refl, (refl, (refl, (refl, (refl, (refl, (refl, (refl, tt)))))))))) refl

program : Unit {0}
unfolding ps_single_quote ps_literal
program = tt

-- A typographic quote is not doubled, so the string ends there.
cut_off :
    read_literal is_quote (ps_single_quote (some (codes "web" ++ 0x2019 ∷ codes "; calc")))
    ≡ some (codes "web", codes "; calc'")
unfolding program
cut_off = refl
