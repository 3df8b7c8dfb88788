-- ===== src/Gc/Heap.antt =====
-- The objects of the heap as `pylt_gc_collect` looks at them, and the roots from which it starts.
use python_lite.Base.{ℕ, Bool, true, false, List, [], ◌∷◌, ◌++◌}

-- What an object of each type holds. `opaque` stands for the types whose case does nothing, with
-- what an object of them holds all the same. Of a dictionary the keys and values in its order.
pub data ObjKind : Type 0 where
  opaque : List ℕ → ObjKind
  module_obj : (attrs : List (ℕ × ℕ)) → ObjKind
  function : (const_val : List ℕ) (closure : List (ℕ × ℕ)) (name doc params defaults : ℕ) → ObjKind
  cfunction : (name doc params defaults : ℕ) → ObjKind
  code_obj : (const_val closure : List ℕ) → ObjKind
  container : (items : List ℕ) → ObjKind
  dict : (items : List (ℕ × ℕ)) → ObjKind
  prop : (fget fset : ℕ) → ObjKind
  custom : (attrs : List (ℕ × ℕ)) → ObjKind

-- `ob_flags` with its three bits.
pub record Flags : Type 0 where
  pub can_free : Bool
  pub static : Bool
  pub watch : Bool

pub record Object : Type 0 where
  pub kind : ObjKind
  pub flags : Flags
  pub is_str_kind : Bool

abbrev pub Heap : Type 0
Heap = ℕ → Object

pub key_values : List (ℕ × ℕ) → List ℕ
key_values [] = []
key_values ((k, v) ∷ items) = k ∷ v ∷ key_values items

-- The addresses that the `switch` on the type hands to `MOVE_WHITE`, in its order. The case of a
-- function goes on into that of a C function.
unfoldable pub children : ObjKind → List ℕ
unfolding key_values
children (opaque held) = []
children (module_obj attrs) = key_values attrs
children (function const_val closure name doc params defaults) =
    const_val ++ (key_values closure ++ name ∷ doc ∷ params ∷ defaults ∷ [])
children (cfunction name doc params defaults) = name ∷ doc ∷ params ∷ defaults ∷ []
children (code_obj const_val closure) = const_val ++ closure
children (container items) = items
children (dict items) = key_values items
children (prop fget fset) = fget ∷ fset ∷ []
children (custom attrs) = key_values attrs

-- A frame of the virtual machine, and a type with its name and attributes.
pub record Frame : Type 0 where
  pub locals : List (ℕ × ℕ)
  pub func : ℕ

pub record TypeInfo : Type 0 where
  pub name : ℕ
  pub ob_attrs : List (ℕ × ℕ)

-- `frames` lists the top frame first; `refs` are the objects of the references in `gc.refs`.
pub record Roots : Type 0 where
  pub frames : List Frame
  pub stack : List ℕ
  pub cls_base : List TypeInfo
  pub refs : List ℕ
  pub builtins : ℕ

of_frames : List Frame → List ℕ
unfolding key_values
of_frames [] = []
of_frames (f ∷ frames) = key_values f.locals ++ f.func ∷ of_frames frames

of_types : List TypeInfo → List ℕ
unfolding key_values
of_types [] = []
of_types (t ∷ types) = t.name ∷ (key_values t.ob_attrs ++ of_types types)

-- What the sections 1 to 6 hand to `MOVE_WHITE`, in their order.
unfoldable pub roots_of : Roots → List ℕ
unfolding of_frames of_types
roots_of r = of_frames r.frames ++ (r.stack ++ (of_types r.cls_base ++ (r.refs ++ r.builtins ∷ [])))

-- The types whose case takes an iterator of the object: lists, sets and tuples.
abbrev pub is_container : ObjKind → Bool
is_container (opaque held) = false
is_container (module_obj attrs) = false
is_container (function const_val closure name doc params defaults) = false
is_container (cfunction name doc params defaults) = false
is_container (code_obj const_val closure) = false
is_container (container items) = true
is_container (dict items) = false
is_container (prop fget fset) = false
is_container (custom attrs) = false
