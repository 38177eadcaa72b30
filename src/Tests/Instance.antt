-- ===== src/Tests/Instance.antt =====
-- A Lua whose tables keep their newest entry first, and whose functions return their arguments: the
-- laws that the development asks of a `Runtime` can be met.
use carrica.Base.{
  ℕ, zero, suc, ◌+◌, ◌≤◌, ◌<◌, ◌≡◌, refl, true, false, [], ◌∷◌, arith, if◌then◌else◌, ◌==◌,
}
use carrica.Base.Int.{pos}
use carrica.Lua.Value.{Value, nil, num, func, whole, value_eq, is_nil, is_key}
use carrica.Lua.Equality.{value_eq→≡, eq_self_key, is_nil→≡}
use carrica.Lua.Table.{Table, lookup, int_key, IsTable}
use carrica.Lua.Runtime.{Runtime, returned}

abbrev without : Value → Table → Table
without k [] = []
without k ((i, u) ∷ t) = if value_eq i k then without k t else (i, u) ∷ without k t

abbrev put : Table → Value → Value → Table
put t k v = if is_nil v then without k t else (k, v) ∷ without k t

lookup-without :
    (k j : Value) (t : Table) → lookup j (without k t) ≡ (if value_eq j k then nil else lookup j t)
lookup-without k j [] = ground arith
lookup-without k j ((i, u) ∷ t) =
    ground (arith, lookup-without k j t, value_eq→≡ i k, value_eq→≡ j i, value_eq→≡ j k)

pub lookup-put :
    (t : Table) (k v j : Value)
    → is_key k ≡ true
    → lookup j (put t k v) ≡ (if value_eq j k then v else lookup j t)
lookup-put t k v j h = ground (arith, lookup-without k j t, is_nil→≡ v)

without-IsTable : (k : Value) (t : Table) → IsTable t → IsTable (without k t)
without-IsTable k [] h = tt
without-IsTable k ((i, u) ∷ t) (a, b, c, d) =
    ground (arith, without-IsTable k t d, lookup-without k i t)

pub put-IsTable : (t : Table) (k v : Value) → is_key k ≡ true → IsTable t → IsTable (put t k v)
put-IsTable t k v h it =
    ground (arith, without-IsTable k t it, lookup-without k k t, eq_self_key k h)

-- A bound on the integer keys.
abbrev key_bound : Value → ℕ
key_bound (num (whole (pos n))) = n
key_bound _ = 0

abbrev bound : Table → ℕ
bound [] = 0
bound ((k, v) ∷ t) = key_bound k + bound t

le-bound : (n : ℕ) (t : Table) → is_nil (lookup (int_key n) t) ≡ false → n ≤ bound t
le-bound n [] h = cc
le-bound n ((num (whole (pos m)), v) ∷ t) h = ground (arith, le-bound n t)
le-bound n ((k, v) ∷ t) h = ground (arith, le-bound n t)

-- The first border, from 0 on.
abbrev scan : ℕ → ℕ → Table → ℕ
scan zero i t = i
scan (suc f) i t = elim (is_nil (lookup (int_key (suc i)) t)) [
  | true ↦ i
  | false ↦ scan f (suc i) t
]

abbrev border : Table → ℕ
border t = scan (bound t) 0 t

scan-eq :
    (f i n : ℕ) (t : Table)
    → ((j : ℕ) → j < n → is_nil (lookup (int_key (suc j)) t) ≡ false)
    → ((j : ℕ) → n ≤ j → lookup (int_key (suc j)) t ≡ nil)
    → i ≤ n
    → n ≤ i + f
    → scan f i t ≡ n
scan-eq zero i n t items rest le ge = omega arith
scan-eq (suc f) i n t items rest le ge =
    ground (arith, items i, rest i, scan-eq f (suc i) n t items rest)

pub border-array :
    (t : Table) (n : ℕ)
    → ((j : ℕ) → j < n → is_nil (lookup (int_key (suc j)) t) ≡ false)
    → ((j : ℕ) → n ≤ j → lookup (int_key (suc j)) t ≡ nil)
    → border t ≡ n
border-array t zero items rest = scan-eq (bound t) 0 zero t items rest (omega arith) (omega arith)
border-array t (suc n) items rest =
    scan-eq (bound t) 0 (suc n) t items rest (omega arith)
      (omega (arith, le-bound (suc n) t (items n (omega arith))))

past-bound :
    (t : Table) (n r : ℕ) → lookup (int_key (suc r)) t ≡ func n → (suc r == suc (bound t)) ≡ false
past-bound t n r e = ground (arith, le-bound (suc r) t (rw e))

abbrev add_ref : Table → Value → Table
add_ref t v = put t (int_key (suc (bound t))) v

pub add_ref_self :
    (t : Table) (v : Value) → is_nil v ≡ false → lookup (int_key (suc (bound t))) (add_ref t v) ≡ v
add_ref_self t v h =
    rw (lookup-put t (int_key (suc (bound t))) v (int_key (suc (bound t))) refl) (ground arith)

instance abbrev pub runtime : Runtime
runtime = record {
  raw_set = put;
  lookup-raw_set = lookup-put;
  raw_set-IsTable = put-IsTable;
  objlen = border;
  size_of = λ v. 0;
  text_of_number = λ n. "1";
  objlen-array = border-array;
  fresh_ref = bound;
  with_ref = add_ref;
  lookup-with_ref = add_ref_self;
  call = λ f args w. returned args w;
}
