-- ===== src/Lua/Equality.antt =====
-- Equality of Lua values and the entries of a Lua table.
use text.Mathlib.TextEquality.{eq_iff}
use carrica.Base.{◌≡◌, refl, Bool, true, false, [], ◌∷◌, ◌++◌, ap, arith, ◌∙◌}
use carrica.Base.Int.{ℤ, pos, negsuc, int_eq}
use carrica.Lua.Value.{
  Value, Number, Light, nil, bool, num, str, light, whole, fraction, infinity, value_eq, number_eq,
  light_eq, bool_eq, is_nil, is_key,
}
use carrica.Lua.Table.{Table, lookup, IsTable, next, after, first}

int_eq→≡ : (a b : ℤ) → int_eq a b ≡ true → a ≡ b
int_eq→≡ (pos a) (pos b) h = ground arith
int_eq→≡ _ _ h = ground arith

bool_eq→≡ : (a b : Bool) → bool_eq a b ≡ true → a ≡ b
bool_eq→≡ true true h = refl
bool_eq→≡ _ _ h = ground arith

number_eq→≡ : (a b : Number) → number_eq a b ≡ true → a ≡ b
number_eq→≡ (whole a) (whole b) h = ap whole (int_eq→≡ a b h)
number_eq→≡ (fraction a n) (fraction b m) h = ground (arith, int_eq→≡ a b)
number_eq→≡ (infinity a) (infinity b) h = ap infinity (bool_eq→≡ a b h)
number_eq→≡ _ _ h = cc

light_eq→≡ : (a b : Light) → light_eq a b ≡ true → a ≡ b
light_eq→≡ Light.emit_ref Light.emit_ref h = refl
light_eq→≡ _ _ h = ground arith

pub value_eq→≡ : (a b : Value) → value_eq a b ≡ true → a ≡ b
value_eq→≡ nil nil h = refl
value_eq→≡ (bool a) (bool b) h = ap bool (bool_eq→≡ a b h)
value_eq→≡ (num a) (num b) h = ap num (number_eq→≡ a b h)
value_eq→≡ (str a) (str b) h = ap str ((eq_iff a b).0 h)
value_eq→≡ (light a) (light b) h = ap light (light_eq→≡ a b h)
value_eq→≡ _ _ h = ground arith

pub eq_self_key : (k : Value) → is_key k ≡ true → value_eq k k ≡ true
eq_self_key (str s) h = (eq_iff s s).1 refl
eq_self_key (num (whole (pos n))) h = ground arith
eq_self_key (num (whole (negsuc n))) h = ground arith
eq_self_key (num (fraction (pos n) m)) h = ground arith
eq_self_key (num (fraction (negsuc n) m)) h = ground arith
eq_self_key _ h = ground arith

pub is_nil→≡ : (v : Value) → is_nil v ≡ true → v ≡ nil
is_nil→≡ nil h = refl
is_nil→≡ _ h = cc

pub value_eq-ne : (a b : Value) → value_eq a b ≡ false → is_key a ≡ true → ¬ (a ≡ b)
value_eq-ne a b h key e = ground (arith, eq_self_key a key)

-- The entries of a table after and before an entry of it.
pub entry-is_key :
    (done : Table) (k v : Value) (rest : Table)
    → IsTable (done ++ (k, v) ∷ rest)
    → (is_key k ≡ true) × (is_nil v ≡ false)
entry-is_key [] k v rest (a, b, c, d) = (a, b)
entry-is_key ((j, u) ∷ done) k v rest (a, b, c, d) = entry-is_key done k v rest d

-- An entry is what a lookup of its key finds.
pub lookup-entry :
    (done : Table) (k v : Value) (rest : Table)
    → IsTable (done ++ (k, v) ∷ rest)
    → lookup k (done ++ (k, v) ∷ rest) ≡ v
lookup-entry [] k v rest (a, b, c, d) = rw (eq_self_key k a)
lookup-entry ((j, u) ∷ done) k v rest (a, b, c, d) =
    ground (arith, lookup-entry done k v rest d, value_eq→≡ k j, (entry-is_key done k v rest d).1)

entry-other :
    (done : Table) (j u k v : Value) (rest : Table)
    → IsTable ((j, u) ∷ done ++ (k, v) ∷ rest)
    → value_eq k j ≡ false
entry-other done j u k v rest (a, b, c, d) =
    ground (arith, lookup-entry done k v rest d, value_eq→≡ k j, (entry-is_key done k v rest d).1)

after-entry :
    (done : Table) (k v : Value) (rest : Table)
    → IsTable (done ++ (k, v) ∷ rest)
    → after k (done ++ (k, v) ∷ rest) ≡ first rest
after-entry [] k v rest (a, b, c, d) = rw (eq_self_key k a)
after-entry ((j, u) ∷ done) k v rest (a, b, c, d) =
    rw (entry-other done j u k v rest (a, b, c, d)) (after-entry done k v rest d)

next-key : (k : Value) (t : Table) → is_key k ≡ true → next k t ≡ after k t
next-key nil t h = cc
next-key _ t h = refl

-- A traversal goes on from an entry to the one behind it.
pub next-entry :
    (done : Table) (k v : Value) (rest : Table)
    → IsTable (done ++ (k, v) ∷ rest)
    → next k (done ++ (k, v) ∷ rest) ≡ first rest
next-entry done k v rest is =
    next-key k (done ++ (k, v) ∷ rest) (entry-is_key done k v rest is).0
    ∙ after-entry done k v rest is
