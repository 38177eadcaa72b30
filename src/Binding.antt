-- ===== src/Binding.antt =====
-- The internal binding of src/vm.c: the foreign methods and classes that src/cls_host.c,
-- src/cls_table.c and src/cls_array.c list, and the search in these lists. A C function stands as its
-- name; the entry of NULLs that ends each list is left out.
pub mod Search
use text.Mathlib.Text.{◌==◌ as str_eq}
use carrica.Base.{String, Bool, true, false, Option, none, some, List, [], ◌∷◌, ◌&&◌, if◌then◌else◌}
use carrica.Lua.Value.{bool_eq}

-- vmForeignMethodDef
pub record MethodDef : Type 0 where
  pub is_static : Bool
  pub signature : String
  pub method : String

-- vmForeignMethodTable
pub record MethodTable : Type 0 where
  pub class_name : String
  pub entries : List MethodDef

abbrev def : Bool → String → String → MethodDef
def is_static signature method = record {
  is_static = is_static;
  signature = signature;
  method = method;
}

abbrev pub host_methods : List MethodDef
host_methods =
    def true "name" "hvmName"
    ∷ def true "const(_)" "hvmConst"
    ∷ def true "ref(_)" "hvmRef"
    ∷ def true "call(_)" "hvmCall0"
    ∷ def true "call(_,_)" "hvmCall1"
    ∷ def true "call(_,_,_)" "hvmCall2"
    ∷ def true "call(_,_,_,_)" "hvmCall3"
    ∷ def true "call(_,_,_,_,_)" "hvmCall4"
    ∷ def true "call(_,_,_,_,_,_)" "hvmCall5"
    ∷ def true "call(_,_,_,_,_,_,_)" "hvmCall6"
    ∷ def true "call(_,_,_,_,_,_,_,_)" "hvmCall7"
    ∷ def true "call(_,_,_,_,_,_,_,_,_)" "hvmCall8"
    ∷ []

abbrev pub table_methods : List MethodDef
table_methods =
    def false "[_]" "tvmGet"
    ∷ def false "[_]=(_)" "tvmSet"
    ∷ def false "clear()" "tvmClear"
    ∷ def false "containsKey(_)" "tvmContainsKey"
    ∷ def false "count" "tvmCount"
    ∷ def false "keys" "tvmKeys"
    ∷ def false "values" "tvmValues"
    ∷ def false "hold()" "tvmHold"
    ∷ def false "release()" "tvmRelease"
    ∷ def false "finsertAll(_)" "tvmInsertAll"
    ∷ def false "array" "tvmArray"
    ∷ def false "list" "tvmList"
    ∷ def false "iterate(_)" "tvmIterate"
    ∷ def false "iteratorValue(_)" "tvmIteratorValue"
    ∷ []

abbrev pub table_entry_methods : List MethodDef
table_entry_methods = def false "key" "tevmKey" ∷ def false "value" "tevmValue" ∷ []

abbrev pub array_methods : List MethodDef
array_methods =
    def false "[_]" "avmGet"
    ∷ def false "[_]=(_)" "avmSet"
    ∷ def true "filled(_,_)" "avmFilled"
    ∷ def true "fromList(_)" "avmFromList"
    ∷ def false "add(_)" "avmAdd"
    ∷ def false "addAll(_)" "avmAddAll"
    ∷ def false "clear()" "avmClear"
    ∷ def false "count" "avmCount"
    ∷ def false "indexOf(_)" "avmIndexOf"
    ∷ def false "insert(_,_)" "avmInsert"
    ∷ def false "remove(_)" "avmRemove"
    ∷ def false "removeAt(_)" "avmRemoveAt"
    ∷ def false "sort()" "avmSort"
    ∷ def false "swap(_,_)" "avmSwap"
    ∷ def false "+(_)" "avmPlus"
    ∷ def false "*(_)" "avmTimes"
    ∷ def false "hold()" "avmHold"
    ∷ def false "release()" "avmRelease"
    ∷ def false "iterate(_)" "avmIterate"
    ∷ def false "iteratorValue(_)" "avmIteratorValue"
    ∷ def false "list" "avmList"
    ∷ []

-- imod.entry after vmBegin: vmiHost, vmiTable and vmiArray, with their method tables
abbrev pub internal_modules : List (List MethodTable)
internal_modules =
    (record { class_name = "Host"; entries = host_methods } ∷ [])
    ∷ (record { class_name = "Table"; entries = table_methods }
        ∷ record { class_name = "TableEntry"; entries = table_entry_methods }
        ∷ [])
    ∷ (record { class_name = "Array"; entries = array_methods } ∷ [])
    ∷ []

abbrev pub or_else : {A : Type 0} → Option A → Option A → Option A
or_else none o = o
or_else (some a) o = some a

abbrev pub is_method : Bool → String → MethodDef → Bool
is_method is_static signature d = bool_eq is_static d.is_static && str_eq signature d.signature

unfoldable pub find_method : Bool → String → List MethodDef → Option String
find_method is_static signature [] = none
find_method is_static signature (d ∷ ds) =
    if is_method is_static signature d then some d.method else find_method is_static signature ds

-- A class that is found and has no such method does not end the search.
unfoldable pub find_in_tables : String → Bool → String → List MethodTable → Option String
unfolding find_method
find_in_tables class_name is_static signature [] = none
find_in_tables class_name is_static signature (t ∷ ts) =
    or_else
      (if str_eq class_name t.class_name then find_method is_static signature t.entries else none)
      (find_in_tables class_name is_static signature ts)

unfoldable pub bind_foreign_method :
    List (List MethodTable) → String → Bool → String → Option String
unfolding find_in_tables
bind_foreign_method [] class_name is_static signature = none
bind_foreign_method (m ∷ ms) class_name is_static signature =
    or_else (find_in_tables class_name is_static signature m)
      (bind_foreign_method ms class_name is_static signature)

-- vmBindForeignMethodInternal; it does not look at the name of the module
unfoldable pub vm_bind_foreign_method_internal :
    (module_name class_name : String) (is_static : Bool) (signature : String) → Option String
unfolding bind_foreign_method
vm_bind_foreign_method_internal module_name = bind_foreign_method internal_modules

-- WrenForeignClassMethods: allocate and finalize
pub record ClassDef : Type 0 where
  pub class_name : String
  pub allocate : String
  pub finalize : String

abbrev pub internal_classes : List (List ClassDef)
internal_classes =
    []
    ∷ (record { class_name = "Table"; allocate = "tvmAllocate"; finalize = "tvmFinalize" }
        ∷ record { class_name = "TableEntry"; allocate = "tevmAllocate"; finalize = "tevmFinalize" }
        ∷ [])
    ∷ (record { class_name = "Array"; allocate = "avmAllocate"; finalize = "avmFinalize" } ∷ [])
    ∷ []

find_class : String → List ClassDef → Option ClassDef
find_class name [] = none
find_class name (c ∷ cs) = if str_eq name c.class_name then some c else find_class name cs

find_in_modules : String → List (List ClassDef) → Option ClassDef
unfolding find_class
find_in_modules name [] = none
find_in_modules name (m ∷ ms) = or_else (find_class name m) (find_in_modules name ms)

-- vmBindForeignClassInternal
unfoldable pub vm_bind_foreign_class_internal : (module_name class_name : String) → Option ClassDef
unfolding find_in_modules
vm_bind_foreign_class_internal module_name name = find_in_modules name internal_classes
