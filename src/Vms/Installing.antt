-- ===== src/Vms/Installing.antt =====
-- lcInstallModule of src/carrica.c, with the names that it has installed before (smodEntry).
use text.Mathlib.Text.{◌==◌ as str_eq}
use carrica.Base.{
  String, Bool, true, false, Option, some, List, [], ◌∷◌, if◌then◌else◌, ◌≡◌, if_true, refl,
}
use carrica.Lua.Value.{str}
use carrica.Lua.Equality.{eq_self_key}
use carrica.Modules.{◌>>=◌}
use carrica.Vms.{System, vm_install_shared_source}

abbrev pub is_installed : String → List String → Bool
is_installed name [] = false
is_installed name (n ∷ ns) = if str_eq name n then true else is_installed name ns

abbrev install_new : (name source : String) → List String → System → Option (List String × System)
unfolding vm_install_shared_source
install_new name source names s =
    vm_install_shared_source name source s >>= λ t. some (name ∷ names, t)

unfoldable pub lc_install_module :
    (name source : String) → List String → System → Option (List String × System)
unfolding install_new
lc_install_module name source names s =
    if is_installed name names then some (names, s) else install_new name source names s

-- A name that was installed once is not installed again, whatever the source.
pub lc_install_module-again :
    (name source : String) (names : List String) (s : System)
    → lc_install_module name source (name ∷ names) s ≡ some (name ∷ names, s)
unfolding lc_install_module
lc_install_module-again name source names s =
    if_true _ _ _ (if_true _ _ _ (eq_self_key (str name) refl))
