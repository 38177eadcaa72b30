-- ===== src/Reference/Object.antt =====
-- The foreign object of an Array or Table in slot 0, with the table behind it.
use carrica.Base.{ℕ, ◌≡◌, some, ◌∷◌}
use carrica.Lua.Value.{Light, table}
use carrica.Wren.Value.{Wren}
use carrica.World.{Share, World, ok}
use carrica.Reference.{push_self, push_object}

-- Foreign object n stands for reference r, whose table is the one at address a.
pub record IsObject (k : Share) (n r a : ℕ) (w : World) : Type 0 where
  pub kind : (w.rerefs n).kind ≡ k
  pub pref : (w.rerefs n).pref ≡ some r
  pub registered : w.registry (Light.ref r) ≡ table a

-- It is the receiver of a foreign method.
pub record IsSelf (k : Share) (n r a : ℕ) (w : World) : Type 0 where
  pub slot : w.slots 0 ≡ Wren.foreign n
  pub object : IsObject k n r a w

pub push_object-ok :
    {k : Share} {n r a : ℕ} {w : World}
    → IsObject k n r a w
    → push_object n w ≡ ok tt (record w { stack = table a ∷ w.stack })
push_object-ok h = rw (h.pref, h.registered)

pub push_self-ok :
    {k : Share} {n r a : ℕ} {w : World}
    → IsSelf k n r a w
    → push_self w ≡ ok tt (record w { stack = table a ∷ w.stack })
unfolding push_self
push_self-ok h = rw (h.slot, push_object-ok h.object)
