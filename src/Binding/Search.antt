-- ===== src/Binding/Search.antt =====
-- vmBindForeignMethodInternal of src/vm.c on the lists of methods.
use text.Mathlib.TextEquality.{eq_iff}
use text.Mathlib.Text.{◌==◌ as str_eq}
use carrica.Base.{
  String, Bool, true, false, Option, none, some, List, [], ◌∷◌, ◌≡◌, ◌⊎◌, inl, inr, refl, sym, ◌∙◌,
  ap, ◌&&◌, arith, Bool-cases, if_true, if_false, if◌then◌else◌,
}
use carrica.Lua.Value.{bool_eq}
use carrica.Binding.{
  MethodDef, MethodTable, is_method, find_method, find_in_tables, bind_foreign_method, or_else,
  internal_modules, vm_bind_foreign_method_internal,
}

-- The class has the method d in one of the tables.
abbrev pub InList : MethodDef → List MethodDef → Type 0
InList d [] = ⊥
InList d (e ∷ es) = (d ≡ e) ⊎ InList d es

abbrev pub InTables : String → MethodDef → List MethodTable → Type 0
InTables class_name d [] = ⊥
InTables class_name d (t ∷ ts) =
    ((class_name ≡ t.class_name) × InList d t.entries) ⊎ InTables class_name d ts

abbrev pub InModules : String → MethodDef → List (List MethodTable) → Type 0
InModules class_name d [] = ⊥
InModules class_name d (m ∷ ms) = InTables class_name d m ⊎ InModules class_name d ms

-- The method that was asked for, and what is bound to it.
abbrev pub Bound : Bool → String → String → MethodDef → Type 0
Bound is_static signature f d =
    (is_static ≡ d.is_static) × (signature ≡ d.signature) × (f ≡ d.method)

bool_eq→≡ : (a b : Bool) → bool_eq a b ≡ true → a ≡ b
bool_eq→≡ true true h = refl
bool_eq→≡ false false h = refl
bool_eq→≡ true false h = ground arith
bool_eq→≡ false true h = ground arith

and-left : (a b : Bool) → (a && b) ≡ true → a ≡ true
and-left a b h = ground arith

and-right : (a b : Bool) → (a && b) ≡ true → b ≡ true
and-right a b h = ground arith

some_inj : {a b : String} → some a ≡ some b → a ≡ b
some_inj h = cc

true-false : ¬ (true ≡ false)
true-false h = cc

none-some : {a : String} → ¬ (none ≡ some a)
none-some h = cc

find_method-InList :
    (is_static : Bool) (signature f : String) (ds : List MethodDef)
    → find_method is_static signature ds ≡ some f
    → (d : MethodDef) × InList d ds × Bound is_static signature f d
unfolding find_method
find_method-InList is_static signature f [] h = cc
find_method-InList is_static signature f (d ∷ ds) h =
    elim (Bool-cases (is_method is_static signature d)) [
      | inl e ↦ (
        d,
        inl refl,
        (
          bool_eq→≡ is_static d.is_static (and-left _ _ e),
          (eq_iff signature d.signature).0 (and-right _ _ e),
          sym (some_inj (rw e at h)),
        ),
      )
      | inr ne ↦
          let (d', there, bound) = find_method-InList is_static signature f ds (rw ne at h) in
          (d', inr there, bound)
    ]

bool_eq_self : (a : Bool) → bool_eq a a ≡ true
bool_eq_self true = refl
bool_eq_self false = refl

is_method_self : (d : MethodDef) → is_method d.is_static d.signature d ≡ true
is_method_self d = rw (bool_eq_self d.is_static) ((eq_iff d.signature d.signature).1 refl)

find_method-found :
    (d : MethodDef) (ds : List MethodDef)
    → InList d ds
    → (f : String) × (find_method d.is_static d.signature ds ≡ some f)
unfolding find_method
find_method-found d [] h = absurd h
find_method-found d (e ∷ es) h = elim (Bool-cases (is_method d.is_static d.signature e)) [
  | inl hit ↦ (e.method, if_true _ _ _ hit)
  | inr miss ↦ elim h [
    | inl same ↦
        absurd
          (true-false (sym (is_method_self d) ∙ ap (is_method d.is_static d.signature) same ∙ miss))
    | inr there ↦ let (f, found) = find_method-found d es there in (f, if_false _ _ _ miss ∙ found)
  ]
]

module _ (class_name : String) (is_static : Bool) (signature : String) where
  -- What one table of a class gives: nothing for another class.
  of_table : MethodTable → Option String
  of_table t =
      if str_eq class_name t.class_name then find_method is_static signature t.entries else none

  of_table-InList :
      (t : MethodTable) (f : String)
      → of_table t ≡ some f
      → (class_name ≡ t.class_name)
        × ((d : MethodDef) × InList d t.entries × Bound is_static signature f d)
  unfolding of_table
  of_table-InList t f h = elim (Bool-cases (str_eq class_name t.class_name)) [
    | inl e ↦ (
      (eq_iff class_name t.class_name).0 e,
      find_method-InList is_static signature f t.entries (sym (if_true _ _ _ e) ∙ h),
    )
    | inr ne ↦ absurd (none-some (sym (if_false _ _ _ ne) ∙ h))
  ]

  or_else-split :
      (o p : Option String) (f : String) → or_else o p ≡ some f → (o ≡ some f) ⊎ (p ≡ some f)
  or_else-split none p f h = inr h
  or_else-split (some a) p f h = inl h

  find_in_tables-InTables :
      (ts : List MethodTable) (f : String)
      → find_in_tables class_name is_static signature ts ≡ some f
      → (d : MethodDef) × InTables class_name d ts × Bound is_static signature f d
  unfolding find_in_tables of_table
  find_in_tables-InTables [] f h = absurd (none-some h)
  find_in_tables-InTables (t ∷ ts) f h =
      elim (or_else-split (of_table t) (find_in_tables class_name is_static signature ts) f h) [
        | inl here ↦
            let (same, (d, there, bound)) = of_table-InList t f here in
            (d, inl (same, there), bound)
        | inr later ↦
            let (d, there, bound) = find_in_tables-InTables ts f later in (d, inr there, bound)
      ]

  bind_foreign_method-InModules :
      (ms : List (List MethodTable)) (f : String)
      → bind_foreign_method ms class_name is_static signature ≡ some f
      → (d : MethodDef) × InModules class_name d ms × Bound is_static signature f d
  unfolding bind_foreign_method
  bind_foreign_method-InModules [] f h = absurd (none-some h)
  bind_foreign_method-InModules (m ∷ ms) f h =
      elim (or_else-split (find_in_tables class_name is_static signature m)
        (bind_foreign_method ms class_name is_static signature) f h) [
          | inl here ↦
              let (d, there, bound) = find_in_tables-InTables m f here in (d, inl there, bound)
          | inr later ↦
              let (d, there, bound) = bind_foreign_method-InModules ms f later in
              (d, inr there, bound)
        ]

or_else-left :
    {o : Option String} {f : String} (p : Option String)
    → o ≡ some f
    → (g : String) × (or_else o p ≡ some g)
or_else-left {f} p e = (f, rw e)

or_else-right :
    (o : Option String) {p : Option String} {f : String}
    → p ≡ some f
    → (g : String) × (or_else o p ≡ some g)
or_else-right none {f} e = (f, e)
or_else-right (some g) e = (g, refl)

module _ (class_name : String) (d : MethodDef) where
  find_in_tables-found :
      (ts : List MethodTable)
      → InTables class_name d ts
      → (f : String) × (find_in_tables class_name d.is_static d.signature ts ≡ some f)
  unfolding find_in_tables
  find_in_tables-found [] h = absurd h
  find_in_tables-found (t ∷ ts) (inl (same, there)) =
      let (f, found) = find_method-found d t.entries there in
      or_else-left _ (if_true _ _ _ ((eq_iff class_name t.class_name).1 same) ∙ found)
  find_in_tables-found (t ∷ ts) (inr there) =
      let (f, found) = find_in_tables-found ts there in or_else-right _ found

  bind_foreign_method-found :
      (ms : List (List MethodTable))
      → InModules class_name d ms
      → (f : String) × (bind_foreign_method ms class_name d.is_static d.signature ≡ some f)
  unfolding bind_foreign_method
  bind_foreign_method-found [] h = absurd h
  bind_foreign_method-found (m ∷ ms) (inl there) =
      let (f, found) = find_in_tables-found m there in or_else-left _ found
  bind_foreign_method-found (m ∷ ms) (inr there) =
      let (f, found) = bind_foreign_method-found ms there in or_else-right _ found

  -- The search binds every foreign method that the internal lists have, whatever module asks for it,
  -- to one that they list for the same class, the same signature, and static like it or not.
  pub vm_bind_foreign_method_internal-InModules :
      (module_name : String)
      → InModules class_name d internal_modules
      → (f : String) × (d' : MethodDef) × (vm_bind_foreign_method_internal module_name class_name
            d.is_static d.signature
          ≡ some f)
        × InModules class_name d' internal_modules
        × Bound d.is_static d.signature f d'
  unfolding vm_bind_foreign_method_internal
  vm_bind_foreign_method_internal-InModules module_name there =
      let (f, found) = bind_foreign_method-found internal_modules there in
      let (d', listed, bound) =
        bind_foreign_method-InModules class_name d.is_static d.signature internal_modules f found in
      (f, d', found, listed, bound)
