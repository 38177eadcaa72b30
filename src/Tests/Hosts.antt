-- ===== src/Tests/Hosts.antt =====
-- The theorems on Host at two handlers, and a Lua whose functions return their arguments.
use carrica.Base.{ℕ, ◌≡◌, refl, [], ◌∷◌, update, arith}
use carrica.Lua.Value.{func}
use carrica.Wren.Value.{Wren}
use carrica.World.{World, ok, pushed}
use carrica.Lua.Value.{table}
use carrica.Host.{hvm_call, hvm_ref}
use carrica.Host.Refs.{IsHost, referenced}
use carrica.Host.Calls.{hvm_call-hvm_ref, with_slots}
use carrica.Tests.Instance.{runtime}
use carrica.Tests.Setup.{int, wren_int, world, args}

abbrev named : World
named = world (args Wren.null (Wren.str "error") Wren.null)

named-IsHost : IsHost 0 named
named-IsHost = record { valid = refl; handlers = refl }

abbrev call_slots : ℕ → Wren
call_slots = args Wren.null (wren_int 2) (wren_int 9)

hvm_call-hvm_ref_example :
    (hvm_ref named ≡ ok tt (referenced 0 (func 8) named))
    × (hvm_call (2 ∷ []) (with_slots call_slots (referenced 0 (func 8) named))
        ≡ ok tt (record (with_slots call_slots (referenced 0 (func 8) named)) {
          stack = named.stack;
          slots = update call_slots 0 (wren_int 9);
        }))
hvm_call-hvm_ref_example =
    hvm_call-hvm_ref 8 call_slots (2 ∷ []) (int 9 ∷ []) [] (int 9) (wren_int 9)
      (pushed (table 0) (with_slots call_slots (referenced 0 (func 8) named))) named-IsHost refl
      refl (omega arith) refl (refl, tt) refl refl
