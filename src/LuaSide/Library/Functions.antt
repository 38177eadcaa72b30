-- ===== src/LuaSide/Library/Functions.antt =====
-- luaopen_carrica of src/carrica.c: the functions that Lua finds in the library and in its metatables.
use carrica.Base.{
  ℕ, ◌≡◌, ◌∙◌, refl, sym, ap, String, Bool, true, false, List, [], ◌∷◌, ◌++◌, if_true, if_false,
  inl, inr, ◌⊎◌, if◌then◌else◌,
}
use mathlib.Core.Bool.{true≢false}
use text.Mathlib.Text.{◌==◌ as str_eq}
use carrica.Lua.Value.{str, func, table}
use carrica.Lua.Equality.{eq_self_key}
use carrica.Lua.Table.{Table, lookup}
use carrica.Lua.Runtime.{Runtime}
use carrica.LuaSide.Library.{Reg, lfunc, lcvmfunc, lctfunc, lcafunc}
use carrica.LuaSide.Library.Metatables.{registered, meta_table}

-- The name stands for that C function in a list.
abbrev pub In : (name f : String) → List Reg → Type 0
In name f [] = ⊥
In name f ((n, g) ∷ l) = ((name ≡ n) × (f ≡ g)) ⊎ In name f l

abbrev absent : String → List Reg → Bool
absent name [] = true
absent name ((n, g) ∷ l) = if str_eq name n then false else absent name l

abbrev distinct : List Reg → Bool
distinct [] = true
distinct ((n, g) ∷ l) = if absent n l then distinct l else false

abbrev pub with_gc : List Reg → String → List Reg
with_gc l gc = l ++ ("__gc", gc) ∷ []

only_then : (b x : Bool) → (if b then x else false) ≡ true → (b ≡ true) × (x ≡ true)
only_then true x h = (refl, h)
only_then false x h = absurd (true≢false (sym h))

only_else : (b x : Bool) → (if b then false else x) ≡ true → (b ≡ false) × (x ≡ true)
only_else true x h = absurd (true≢false (sym h))
only_else false x h = (refl, h)

module _ ⦃R : Runtime⦄ (cfunction : String → ℕ) where
  lookup-registered_absent :
      (name : String) (l : List Reg) (t : Table)
      → absent name l ≡ true
      → lookup (str name) (registered cfunction l t) ≡ lookup (str name) t
  lookup-registered_absent name [] t h = refl
  lookup-registered_absent name ((n, g) ∷ l) t h =
      lookup-registered_absent name l (R.raw_set t (str n) (func (cfunction g)))
        (only_else (str_eq name n) (absent name l) h).1
      ∙ R.lookup-raw_set t (str n) (func (cfunction g)) (str name) refl
      ∙ if_false _ _ _ (only_else (str_eq name n) (absent name l) h).0

  lookup-registered_first :
      (name f : String) (l : List Reg) (t : Table)
      → absent name l ≡ true
      → lookup (str name) (registered cfunction ((name, f) ∷ l) t) ≡ func (cfunction f)
  lookup-registered_first name f l t h =
      lookup-registered_absent name l (R.raw_set t (str name) (func (cfunction f))) h
      ∙ R.lookup-raw_set t (str name) (func (cfunction f)) (str name) refl
      ∙ if_true _ _ _ (eq_self_key (str name) refl)

  -- A list of distinct names gives each its function.
  pub lookup-registered :
      (l : List Reg) (t : Table) (name f : String)
      → distinct l ≡ true
      → In name f l
      → lookup (str name) (registered cfunction l t) ≡ func (cfunction f)
  lookup-registered [] t name f d h = absurd h
  lookup-registered ((n, g) ∷ l) t name f d (inl (e, e')) =
      rw (e, e') (lookup-registered_first n g l t (only_then (absent n l) (distinct l) d).0)
  lookup-registered ((n, g) ∷ l) t name f d (inr h) =
      lookup-registered l (R.raw_set t (str n) (func (cfunction g))) name f
        (only_then (absent n l) (distinct l) d).1 h

  registered-append :
      (l : List Reg) (n g : String) (t : Table)
      → registered cfunction (l ++ (n, g) ∷ []) t
        ≡ R.raw_set (registered cfunction l t) (str n) (func (cfunction g))
  registered-append [] n g t = refl
  registered-append ((m, f) ∷ l) n g t =
      registered-append l n g (R.raw_set t (str m) (func (cfunction f)))

  -- A metatable at a: its own index, with every function of a list, and the one that collects.
  pub record IsMeta (l : List Reg) (a : ℕ) (t : Table) : Type 0 where
    pub index : lookup (str "__index") t ≡ table a
    pub functions : (name f : String) → In name f l → lookup (str name) t ≡ func (cfunction f)

  meta_table-IsMeta :
      (l : List Reg) (gc : String) (a : ℕ)
      → distinct (with_gc l gc) ≡ true
      → absent "__index" (with_gc l gc) ≡ true
      → IsMeta (with_gc l gc) a (meta_table cfunction l gc a)
  meta_table-IsMeta l gc a different no_index =
      let t : Table = R.raw_set [] (str "__index") (table a) in
      let same = registered-append l "__gc" gc t in
      record {
        index =
            ap (lookup (str "__index")) (sym same)
            ∙ lookup-registered_absent "__index" (with_gc l gc) t no_index
            ∙ R.lookup-raw_set [] (str "__index") (table a) (str "__index") refl;
        functions = λ name f at.
            ap (lookup (str name)) (sym same)
            ∙ lookup-registered (with_gc l gc) t name f different at;
      }

  pub meta_table-lcvmfunc :
      (a : ℕ) → IsMeta (with_gc lcvmfunc "lcvmGC") a (meta_table cfunction lcvmfunc "lcvmGC" a)
  meta_table-lcvmfunc a = meta_table-IsMeta lcvmfunc "lcvmGC" a refl refl

  pub meta_table-lctfunc :
      (a : ℕ) → IsMeta (with_gc lctfunc "lctGC") a (meta_table cfunction lctfunc "lctGC" a)
  meta_table-lctfunc a = meta_table-IsMeta lctfunc "lctGC" a refl refl

  pub meta_table-lcafunc :
      (a : ℕ) → IsMeta (with_gc lcafunc "lcaGC") a (meta_table cfunction lcafunc "lcaGC" a)
  meta_table-lcafunc a = meta_table-IsMeta lcafunc "lcaGC" a refl refl

  pub lookup-library :
      (t : Table) (name f : String)
      → In name f lfunc
      → lookup (str name) (registered cfunction lfunc t) ≡ func (cfunction f)
  lookup-library t name f at = lookup-registered lfunc t name f refl at
