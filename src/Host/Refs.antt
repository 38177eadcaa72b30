-- ===== src/Host/Refs.antt =====
-- hvmRef of src/cls_host.c.
use carrica.Base.{ℕ, suc, ◌≡◌, ◌≢◌, refl, String, true, update}
use carrica.Base.Int.{pos, negsuc}
use carrica.Lua.Value.{Value, Light, LuaType, t_function, lua_type, str, table, func, whole}
use carrica.Lua.Table.{lookup}
use carrica.Lua.Runtime.{Runtime}
use carrica.Wren.Value.{Wren}
use carrica.World.{World, ok, pushed, ◌>>◌}
use carrica.Lua.Api.{lua_pop}
use carrica.Host.{hvm_ref, ref_found, set_number}

-- A valid VM whose handlers are the table at address h.
pub record IsHost (h : ℕ) (w : World) : Type 0 where
  pub valid : w.cvm.vm ≡ true
  pub handlers : w.registry (Light.cvm w.cvm.address) ≡ table h

-- The world after a reference to v in the table at h, with its number in slot 0.
abbrev pub referenced : ⦃R : Runtime⦄ → ℕ → Value → World → World
referenced ⦃R⦄ h v w = record w {
  tables = update w.tables h (R.with_ref (w.tables h) v);
  slots = update w.slots 0 (Wren.num (whole (pos (suc (R.fresh_ref (w.tables h))))));
}

ref_found-other :
    ⦃R : Runtime⦄ (t : LuaType) (w : World)
    → t ≢ t_function
    → ref_found t w ≡ (set_number (negsuc 0) >> lua_pop 2) w
unfolding ref_found
ref_found-other t_function w other = absurd (other refl)
ref_found-other _ w other = refl

module _ ⦃R : Runtime⦄ {h : ℕ} {w : World} (host : IsHost h w) where
  -- The name of an installed handler gives a reference to its function, a positive number.
  pub hvm_ref-found :
      {name : String} {f : ℕ}
      → w.slots 1 ≡ Wren.str name
      → lookup (str name) (w.tables h) ≡ func f
      → hvm_ref w ≡ ok tt (referenced h (func f) w)
  unfolding hvm_ref
  hvm_ref-found slot found = rw (host.valid, slot, slot, host.handlers, found)

  -- A name under which there is no function gives -1, and changes nothing else.
  pub hvm_ref-missing :
      {name : String}
      → w.slots 1 ≡ Wren.str name
      → lua_type (lookup (str name) (w.tables h)) ≢ t_function
      → hvm_ref w ≡ ok tt (record w { slots = update w.slots 0 (Wren.num (whole (negsuc 0))) })
  unfolding hvm_ref
  hvm_ref-missing {name} slot other = rw (
    host.valid,
    slot,
    slot,
    host.handlers,
    ref_found-other (lua_type (lookup (str name) (w.tables h)))
        (pushed (lookup (str name) (w.tables h))
          (pushed (table h) (record w { cvm = record w.cvm { vm = true } })))
        other,
  )

-- The registry and the handlers stay in place.
pub referenced-IsHost :
    ⦃R : Runtime⦄ {h : ℕ} {w : World} (v : Value) → IsHost h w → IsHost h (referenced h v w)
referenced-IsHost v host = record { valid = host.valid; handlers = host.handlers }
