-- ===== src/Array/Joins.antt =====
-- addAll of src/cls_array.c at another Array, which may be the receiver itself.
use carrica.Base.{
  ℕ, suc, ◌<◌, ◌≤◌, ◌≡◌, ◌∙◌, refl, false, List, [], ◌∷◌, ◌++◌, length, get_or, update, update_self,
  arith, append_assoc, append-nil, sym, ap, length-snoc, get_or-middle, length-append, Bool-cases,
  inl, inr, eq→≡, subst, ◌==◌,
}
use carrica.Lua.Value.{Value, nil, table, is_nil}
use carrica.Lua.Table.{Table, lookup, int_key, IsArray}
use carrica.Lua.Runtime.{Runtime}
use carrica.Wren.Value.{Wren}
use carrica.World.{share_array, World, ok, pushed}
use carrica.Reference.Object.{IsSelf, IsObject, push_self-ok}
use carrica.Array.Items.{
  IsArray-objlen, IsArray-append, OnlyTable, OnlyTable-refl, OnlyTable-trans, only_table,
}
use carrica.Array.Build.{add_table_loop, avm_add_all}

-- The items of a list are those of a table, at the positions that the list has.
abbrev pub Holds : Table → List Value → Type 0
Holds t ys = (i : ℕ) → i < length ys → lookup (int_key (suc i)) t ≡ get_or ys i nil

le_step : {m n : ℕ} → m ≤ n → m ≤ suc n
le_step h = omega arith

-- An assignment at a position past the list.
Holds-assign :
    ⦃R : Runtime⦄ (t : Table) (ys : List Value) (p : ℕ) (v : Value)
    → Holds t ys
    → length ys ≤ p
    → Holds (R.raw_set t (int_key (suc p)) v) ys
Holds-assign ⦃R⦄ t ys p v holds le i lt =
    rw (R.lookup-raw_set t (int_key (suc p)) v (int_key (suc i)) refl) (ground (arith, holds i lt))

module _ ⦃R : Runtime⦄ (a b : ℕ) where
  abbrev table_round : World → ℕ → Value → World
  table_round w p v = record w {
    tables = update w.tables a (R.raw_set (w.tables a) (int_key (suc p)) v);
  }

  add_table_loop-step :
      (k i p : ℕ) (v : Value) (w : World) (st : List Value)
      → w.stack ≡ table b ∷ table a ∷ st
      → lookup (int_key (suc i)) (w.tables b) ≡ v
      → add_table_loop (suc k) i p w ≡ add_table_loop k (suc i) (suc p) (table_round w p v)
  unfolding add_table_loop
  add_table_loop-step k i p v w st top item = rw (top, item)

  -- The table at b keeps its items, also where it is the one that is written.
  Holds-round :
      (ys : List Value) (p : ℕ) (v : Value) (w : World)
      → Holds (w.tables b) ys
      → (b ≡ a → length ys ≤ p)
      → Holds ((table_round w p v).tables b) ys
  Holds-round ys p v w holds past i lt = elim (Bool-cases (b == a)) [
    | inl same ↦ rw same (
        Holds-assign (w.tables a) ys p v (subst (λ c. Holds (w.tables c) ys) (eq→≡ b a same) holds)
          (past (eq→≡ b a same)) i lt)
    | inr apart ↦ rw apart (holds i lt)
  ]

  add_table_loop-appends :
      (done ys xs : List Value) (w : World) (st : List Value)
      → w.stack ≡ table b ∷ table a ∷ st
      → Holds (w.tables b) (done ++ ys)
      → ((i : ℕ) → i < length (done ++ ys) → is_nil (get_or (done ++ ys) i nil) ≡ false)
      → (b ≡ a → length (done ++ ys) ≤ length xs)
      → IsArray (w.tables a) xs
      → (w' : World) × (add_table_loop (length ys) (length done) (length xs) w ≡ ok tt w')
        × IsArray (w'.tables a) (xs ++ ys)
        × OnlyTable a w w'
        × (w'.slots ≡ w.slots)
  unfolding add_table_loop
  add_table_loop-appends done [] xs w st top holds nn past is =
      (w, refl, rw append-nil is, OnlyTable-refl a w, refl)
  add_table_loop-appends done (v ∷ ys) xs w st top holds nn past is =
      let here : length done < length (done ++ v ∷ ys) = rw length-append (omega arith) in
      let item = holds (length done) here ∙ get_or-middle done v ys nil in
      let not_nil : is_nil v ≡ false = rw get_or-middle at (nn (length done) here) in
      let regroup = append_assoc done (v ∷ []) ys in
      let (w', runs, items, only, slots) =
        add_table_loop-appends (done ++ v ∷ []) ys (xs ++ v ∷ []) (table_round w (length xs) v) st
          top (rw regroup (Holds-round (done ++ v ∷ ys) (length xs) v w holds past)) (rw regroup nn)
          (λ e. rw (regroup, length-snoc) (le_step (past e)))
          (rw (update_self w.tables a) (IsArray-append v is not_nil)) in
      (
        w',
        add_table_loop-step (length ys) (length done) (length xs) v w st top item
            ∙ rw (length-snoc done v, length-snoc xs v) at runs,
        rw (append_assoc xs (v ∷ []) ys) at items,
        OnlyTable-trans (only_table w a _) only,
        slots,
      )

same_length :
    ⦃R : Runtime⦄ (f : ℕ → Table) {a b : ℕ} {xs ys : List Value}
    → IsArray (f a) xs
    → IsArray (f b) ys
    → b ≡ a
    → length ys ≤ length xs
same_length ⦃R⦄ f is js e =
    omega (arith, sym (IsArray-objlen js), ap (λ c. R.objlen (f c)) e, IsArray-objlen is)

module _ ⦃R : Runtime⦄ {n m r s a b : ℕ} {w : World} {xs ys : List Value}
    (self : IsSelf share_array n r a w) (is : IsArray (w.tables a) xs) where
  add_all_run :
      (w1 : World)
      → w.slots 1 ≡ Wren.foreign m
      → IsObject share_array m s b w
      → IsArray (w.tables b) ys
      → add_table_loop (length ys) 0 (length xs) (pushed (table b) (pushed (table a) w)) ≡ ok tt w1
      → w1.stack ≡ table b ∷ table a ∷ w.stack
      → avm_add_all w ≡ ok tt (record w1 { stack = w.stack })
  unfolding avm_add_all
  add_all_run w1 slot other js runs left = rw (
    push_self-ok self,
    slot,
    slot,
    other.kind,
    other.pref,
    other.registered,
    IsArray-objlen js,
    IsArray-objlen is,
    runs,
    left,
  )

  -- addAll of an Array appends its items in order; the other Array may be the receiver.
  pub avm_add_all-IsArray :
      w.slots 1 ≡ Wren.foreign m
      → IsObject share_array m s b w
      → IsArray (w.tables b) ys
      → (w' : World) × (avm_add_all w ≡ ok tt w')
        × IsArray (w'.tables a) (xs ++ ys)
        × OnlyTable a w w'
        × (w'.slots ≡ w.slots)
  avm_add_all-IsArray slot other js =
      let (w1, runs, items, only, slots) =
        add_table_loop-appends a b [] ys xs (pushed (table b) (pushed (table a) w)) w.stack refl
          (λ i lt. js.item i) js.no_nil (same_length w.tables is js) is in
      (
        record w1 { stack = w.stack },
        add_all_run w1 slot other js runs only.stack,
        items,
        record {
          stack = refl;
          others = only.others;
          registry = only.registry;
          refs = only.refs;
          rerefs = only.rerefs;
          lists = only.lists;
          abort = only.abort;
        },
        slots,
      )
