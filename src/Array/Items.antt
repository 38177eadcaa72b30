-- ===== src/Array/Items.antt =====
-- Assignments to the table of an Array, as operations on the list of its items.
use carrica.Base.{
  ℕ, zero, suc, ◌<◌, ◌≤◌, ◌≡◌, ◌≢◌, refl, ◌∙◌, false, List, [], ◌∷◌, ◌++◌, length, get_or,
  get_or-past, take, ap, set, length-append, update, update_ne, arith, ◌==◌, if◌then◌else◌,
}
use carrica.Lua.Value.{Value, nil, value_eq, is_nil}
use carrica.Lua.Table.{Table, int_key, IsArray}
use carrica.Lua.Runtime.{Runtime}
use carrica.World.{World}
use carrica.Wren.Value.{Wren}

get_or-set :
    (xs : List Value) (i j : ℕ) (v : Value)
    → i < length xs
    → get_or (set xs i v) j nil ≡ (if j == i then v else get_or xs j nil)
get_or-set [] i j v h = elim h [ ]
get_or-set (x ∷ xs) zero zero v h = refl
get_or-set (x ∷ xs) zero (suc j) v h = ground arith
get_or-set (x ∷ xs) (suc i) zero v h = ground arith
get_or-set (x ∷ xs) (suc i) (suc j) v h = ground (arith, get_or-set xs i j v)

get_or-append :
    (xs : List Value) (j : ℕ) (v : Value)
    → get_or (xs ++ v ∷ []) j nil ≡ (if j == length xs then v else get_or xs j nil)
get_or-append [] zero v = refl
get_or-append [] (suc j) v = ground arith
get_or-append (x ∷ xs) zero v = ground arith
get_or-append (x ∷ xs) (suc j) v = ground (arith, get_or-append xs j v)

pub length-set : (xs : List Value) (i : ℕ) (v : Value) → length (set xs i v) ≡ length xs
length-set [] i v = refl
length-set (x ∷ xs) zero v = refl
length-set (x ∷ xs) (suc i) v = omega (arith, length-set xs i v)

int_key-eq : (i j : ℕ) → value_eq (int_key (suc i)) (int_key (suc j)) ≡ (i == j)
int_key-eq i j = ground arith

pub IsArray-nil : IsArray [] []
IsArray-nil = record { item = λ i. refl; no_nil = λ i h. elim h [ ] }

module _ ⦃R : Runtime⦄ {t : Table} {xs : List Value} where
  pub IsArray-set :
      (i : ℕ) (v : Value)
      → IsArray t xs
      → i < length xs
      → is_nil v ≡ false
      → IsArray (R.raw_set t (int_key (suc i)) v) (set xs i v)
  IsArray-set i v is lt nn = record {
    item = λ j. rw (
      R.lookup-raw_set t (int_key (suc i)) v (int_key (suc j)) refl,
      int_key-eq j i,
      get_or-set xs i j v lt,
      is.item,
    );
    no_nil = λ j h.
        rw (get_or-set xs i j v lt) (ground (arith, is.no_nil j (rw (length-set xs i v) at h)));
  }

  pub IsArray-append :
      (v : Value)
      → IsArray t xs
      → is_nil v ≡ false
      → IsArray (R.raw_set t (int_key (suc (length xs))) v) (xs ++ v ∷ [])
  IsArray-append v is nn = record {
    item = λ j. rw (
      R.lookup-raw_set t (int_key (suc (length xs))) v (int_key (suc j)) refl,
      int_key-eq j (length xs),
      get_or-append xs j v,
      is.item,
    );
    no_nil =
        λ j h. rw (get_or-append xs j v) (ground (arith, is.no_nil j, length-append xs (v ∷ [])));
  }

get_or-take :
    (xs : List Value) (i j : ℕ)
    → suc i ≡ length xs
    → get_or (take i xs) j nil ≡ (if j == i then nil else get_or xs j nil)
get_or-take [] i j h = ground arith
get_or-take (x ∷ xs) zero zero h = refl
get_or-take (x ∷ xs) zero (suc j) h = rw (get_or-past xs j nil (omega arith)) (ground arith)
get_or-take (x ∷ xs) (suc i) zero h = ground arith
get_or-take (x ∷ xs) (suc i) (suc j) h = ground (arith, get_or-take xs i j (omega arith))

length-take : (xs : List Value) (i : ℕ) → i ≤ length xs → length (take i xs) ≡ i
length-take xs zero h = refl
length-take [] (suc i) h = absurd (omega arith)
length-take (x ∷ xs) (suc i) h = ap suc (length-take xs i (omega arith))

pub IsArray-take :
    ⦃R : Runtime⦄ {t : Table} {xs : List Value} (i : ℕ)
    → IsArray t xs
    → suc i ≡ length xs
    → IsArray (R.raw_set t (int_key (suc i)) nil) (take i xs)
IsArray-take ⦃R⦄ {t} {xs} i is last = record {
  item = λ j. rw (
    R.lookup-raw_set t (int_key (suc i)) nil (int_key (suc j)) refl,
    int_key-eq j i,
    get_or-take xs i j last,
    is.item,
  );
  no_nil = λ j h.
      let below : j < i = rw (length-take xs i (omega arith)) at h in
      rw (get_or-take xs i j last) (ground (arith, is.no_nil j));
}

pub IsArray-objlen :
    ⦃R : Runtime⦄ {t : Table} {xs : List Value} → IsArray t xs → R.objlen t ≡ length xs
IsArray-objlen ⦃R⦄ {t} {xs} is =
    R.objlen-array t (length xs) (λ i lt. rw is.item (is.no_nil i lt))
      (λ i le. rw is.item (get_or-past xs i nil le))

-- A run that changes nothing but the table at a and the slots.
pub record OnlyTable (a : ℕ) (w w' : World) : Type 0 where
  pub stack : w'.stack ≡ w.stack
  pub others : (b : ℕ) → b ≢ a → w'.tables b ≡ w.tables b
  pub registry : w'.registry ≡ w.registry
  pub refs : w'.refs ≡ w.refs
  pub rerefs : w'.rerefs ≡ w.rerefs
  pub lists : w'.lists ≡ w.lists
  pub abort : w'.abort ≡ w.abort

pub OnlyTable-refl : (a : ℕ) (w : World) → OnlyTable a w w
OnlyTable-refl a w = record {
  stack = refl;
  others = λ b ne. refl;
  registry = refl;
  refs = refl;
  rerefs = refl;
  lists = refl;
  abort = refl;
}

pub OnlyTable-trans : {a : ℕ} {u v w : World} → OnlyTable a u v → OnlyTable a v w → OnlyTable a u w
OnlyTable-trans f g = record {
  stack = g.stack ∙ f.stack;
  others = λ b ne. g.others b ne ∙ f.others b ne;
  registry = g.registry ∙ f.registry;
  refs = g.refs ∙ f.refs;
  rerefs = g.rerefs ∙ f.rerefs;
  lists = g.lists ∙ f.lists;
  abort = g.abort ∙ f.abort;
}

pub OnlyTable-slots :
    (a : ℕ) (w : World) (t : Table) (s : ℕ → Wren)
    → OnlyTable a w (record w { slots = s; tables = update w.tables a t })
OnlyTable-slots a w t s = record {
  stack = refl;
  others = λ b ne. update_ne w.tables a b t ne;
  registry = refl;
  refs = refl;
  rerefs = refl;
  lists = refl;
  abort = refl;
}

pub only_table :
    (w : World) (a : ℕ) (t : Table) → OnlyTable a w (record w { tables = update w.tables a t })
only_table w a t = record {
  stack = refl;
  others = λ b ne. update_ne w.tables a b t ne;
  registry = refl;
  refs = refl;
  rerefs = refl;
  lists = refl;
  abort = refl;
}
