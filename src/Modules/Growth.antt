-- ===== src/Modules/Growth.antt =====
-- The tables of src/vm.c hold a list, with blank cells behind it: growing and storing on it.
use carrica.Base.{
  ℕ, zero, suc, ◌+◌, ◌<◌, ◌≡◌, ◌∙◌, refl, false, some, List, [], ◌∷◌, ◌++◌, length, replicate, set,
  get_elem?, take, arith, ap, sym, append_assoc, length-append, length-snoc, get_elem?-middle,
  ltb_of_lt, ◌==◌, Bool-cases, inl, inr, eq→≡,
}
use carrica.Modules.{
  Growing, Module, ModDef, no_module, expand, store, install_def, install_module, contents,
}

-- The table holds the list xs: blank cells, as many as `spare`, are behind it, at least one of them
-- once there are cells.
pub record Holds {A : Type 0} (blank : A) (t : Growing A) (xs : List A) : Type 0 where
  pub spare : ℕ
  pub cells : t.cells ≡ xs ++ replicate spare blank
  pub max : t.max ≡ length xs + spare
  pub count : t.count ≡ length xs
  pub room : 0 < t.max → 0 < spare

not_lt : {n : ℕ} → ¬ (n < n)
not_lt h = omega arith

zero_plus : (n : ℕ) → n ≡ zero + n
zero_plus n = omega arith

suc_plus : (m n : ℕ) → suc (m + n) ≡ suc m + n
suc_plus m n = omega arith

roomy :
    (max count held spare : ℕ)
    → max ≡ held + spare
    → count ≡ held
    → (0 < max → 0 < spare)
    → (max == 0) ≡ false
    → ((count + 1) == max) ≡ false
    → 1 < spare
roomy zero count held spare em ec room ne other = ground arith
roomy (suc max) count held zero em ec room ne other = absurd (not_lt (room (omega arith)))
roomy (suc max) count held (suc zero) em ec room ne other = ground arith
roomy (suc max) count held (suc (suc spare)) em ec room ne other = omega arith

module _ {A : Type 0} where
  replicate-append : (m n : ℕ) (b : A) → replicate m b ++ replicate n b ≡ replicate (m + n) b
  replicate-append zero n b = ap (λ k. replicate k b) (zero_plus n)
  replicate-append (suc m) n b =
      ap (λ xs. b ∷ xs) (replicate-append m n b) ∙ ap (λ k. replicate k b) (suc_plus m n)

  length-replicate : (n : ℕ) (b : A) → length (replicate n b) ≡ n
  length-replicate zero b = refl
  length-replicate (suc n) b = ap suc (length-replicate n b)

  set-middle :
      (xs : List A) (y v : A) (ys : List A) → set (xs ++ y ∷ ys) (length xs) v ≡ xs ++ v ∷ ys
  set-middle [] y v ys = refl
  set-middle (x ∷ xs) y v ys = ap (λ zs. x ∷ zs) (set-middle xs y v ys)

  take-length : (xs ys : List A) → take (length xs) (xs ++ ys) ≡ xs
  take-length [] ys = refl
  take-length (x ∷ xs) ys = ap (λ zs. x ∷ zs) (take-length xs ys)

  pub contents-Holds : {b : A} {t : Growing A} {xs : List A} → Holds b t xs → contents t ≡ xs
  contents-Holds {b} {t} {xs} h = rw (h.count, h.cells) (take-length xs (replicate h.spare b))

  length-zero : (xs : List A) (n : ℕ) → length xs + n ≡ 0 → xs ≡ []
  length-zero [] n e = refl
  length-zero (x ∷ xs) n e = absurd (omega arith)

  -- A table with at least two cells to spare.
  pub record Roomy (b : A) (t : Growing A) (xs : List A) : Type 0 where
    pub holds : Holds b t xs
    pub two : 1 < holds.spare

  pub expand-Roomy :
      {b : A} {t : Growing A} {xs : List A} (minimum : ℕ)
      → 1 < minimum
      → Holds b t xs
      → Roomy b (expand b minimum t) xs
  unfolding expand
  expand-Roomy {b} {t} {xs} minimum big h = elim (Bool-cases (t.max == 0)) [
    | inl e ↦
        let none_held : xs ≡ [] = length-zero xs h.spare (sym h.max ∙ eq→≡ t.max 0 e) in
        rw e (record {
          holds = record {
            spare = minimum;
            cells = rw none_held;
            max = rw none_held (omega arith);
            count = h.count;
            room = λ lt. omega arith;
          };
          two = big;
        })
    | inr ne ↦ elim (Bool-cases ((t.count + 1) == t.max)) [
      | inl e ↦
          let last : t.count + 1 ≡ t.max = eq→≡ (t.count + 1) t.max e in
          rw (ne, e)
            (record {
              holds = record {
                spare = h.spare + t.max;
                cells =
                    ap (λ ys. ys ++ replicate t.max b) h.cells
                    ∙ append_assoc xs (replicate h.spare b) (replicate t.max b)
                    ∙ ap (λ ys. xs ++ ys) (replicate-append h.spare t.max b);
                max = omega (arith, h.max, h.count, last);
                count = h.count;
                room = λ lt. omega (arith, last);
              };
              two = omega (arith, h.max, h.count, last);
            })
      | inr other ↦
          rw (ne, other)
            (record {
              holds = h;
              two = roomy t.max t.count (length xs) h.spare h.max h.count h.room ne other;
            })
    ]
  ]

lt_length : (held spare : ℕ) → 1 < spare → held < held + spare
lt_length held spare h = omega arith

module _ {A : Type 0} where
  at_count :
      {b : A} {t : Growing A} {xs : List A} → Roomy b t xs → get_elem? t.cells t.count ≡ some b
  at_count {b} {t} {xs} h = blank_at h.holds.spare h.holds.cells h.two
    where
      blank_at :
          (n : ℕ) → t.cells ≡ xs ++ replicate n b → 1 < n → get_elem? t.cells t.count ≡ some b
      blank_at zero e lt = absurd (omega arith)
      blank_at (suc n) e lt = rw (e, h.holds.count) (get_elem?-middle xs b (replicate n b))

  stored :
      (v b : A) (t : Growing A) (xs : List A) (spare : ℕ)
      → t.cells ≡ xs ++ replicate (suc spare) b
      → t.max ≡ length xs + suc spare
      → t.count ≡ length xs
      → 0 < spare
      → (u : Growing A) × (store v t ≡ some u) × Holds b u (xs ++ v ∷ [])
  unfolding store
  stored v b t xs spare cells max count more = (
    record { cells = xs ++ v ∷ replicate spare b; max = t.max; count = suc (length xs) },
    rw (
      count,
      cells,
      ltb_of_lt (length xs) (length (xs ++ replicate (suc spare) b))
          (rw (length-append xs (replicate (suc spare) b)) (omega arith)),
      set-middle xs b v (replicate spare b),
    ),
    record {
      spare = spare;
      cells = sym (append_assoc xs (v ∷ []) (replicate spare b));
      max = rw (length-snoc xs v) (omega arith);
      count = sym (length-snoc xs v);
      room = λ lt. more;
    },
  )

  pub store-Roomy :
      {b : A} {t : Growing A} {xs : List A} (v : A)
      → Roomy b t xs
      → (u : Growing A) × (store v t ≡ some u) × Holds b u (xs ++ v ∷ [])
  store-Roomy {b} {t} {xs} v h = by_spare h.holds.spare h.holds.cells h.holds.max h.two
    where
      by_spare :
          (n : ℕ)
          → t.cells ≡ xs ++ replicate n b
          → t.max ≡ length xs + n
          → 1 < n
          → (u : Growing A) × (store v t ≡ some u) × Holds b u (xs ++ v ∷ [])
      by_spare zero e em lt = absurd (omega arith)
      by_spare (suc n) e em lt = stored v b t xs n e em h.holds.count (omega arith)

-- A module with nothing that binds: what an installed source is.
abbrev pub source_module : ModDef → Module
source_module def = record no_module { def = def }

module _ {t : Growing Module} {ms : List Module} (minimum : ℕ) (big : 1 < minimum)
    (h : Holds no_module t ms) where
  -- In a well-formed table that starts with at least two cells, installing a module never writes
  -- outside the cells, puts the module behind those that are there, and leaves the table well formed.
  pub install_module-Holds :
      (m : Module)
      → (u : Growing Module) × (install_module minimum m t ≡ some u)
        × Holds no_module u (ms ++ m ∷ [])
  unfolding install_module
  install_module-Holds m = store-Roomy m (expand-Roomy minimum big h)

  -- So does installing a source, as a module with nothing that binds.
  pub install_def-Holds :
      (def : ModDef)
      → (u : Growing Module) × (install_def minimum def t ≡ some u)
        × Holds no_module u (ms ++ source_module def ∷ [])
  unfolding install_def
  install_def-Holds def =
      let (u, runs, holds) = store-Roomy (source_module def) (expand-Roomy minimum big h) in
      (u, rw (at_count (expand-Roomy minimum big h)) runs, holds)
