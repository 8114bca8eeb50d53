-- ===== src/Kaleidoscope/Syntax.antt =====
-- apps/create_language/include/kaleidoscope/abstract_syntax_tree.hpp. A `unique_ptr` to a node is the
-- node; `none` is the `std::monostate` of `expression` and `node`. The list of arguments stands in
-- the block of the expressions. `D` is `double`.
use communicate_between_proc.Prelude.{ℕ, Bool, true, false, List}

pub data BinaryOperator : Type 0 where
  less_than addition subtraction multiplication : BinaryOperator

mutual
  pub data Expression (D : Type 0) : Type 0 where
    none : Expression D
    number : D → Expression D
    variable : List ℕ → Expression D
    binary : BinaryOperator → Expression D → Expression D → Expression D
    call : List ℕ → Expressions D → Expression D

  pub data Expressions (D : Type 0) : Type 0 where
    nil : Expressions D
    cons : Expression D → Expressions D → Expressions D

-- `args.push_back`.
abbrev pub push_back : {D : Type 0} → Expressions D → Expression D → Expressions D
push_back nil e = cons e nil
push_back (cons x xs) e = cons x (push_back xs e)

pub record Prototype : Type 0 where
  pub name : List ℕ
  pub args : List (List ℕ)

pub record Function (D : Type 0) : Type 0 where
  pub proto : Prototype
  pub body : Expression D

pub data Node (D : Type 0) : Type 0 where
  none : Node D
  number : D → Node D
  variable : List ℕ → Node D
  binary : BinaryOperator → Expression D → Expression D → Node D
  call : List ℕ → Expressions D → Node D
  prototype : Prototype → Node D
  function : Function D → Node D

-- `core::variant_cast` keeps the alternative.
unfoldable pub make_node : {D : Type 0} → Expression D → Node D
make_node Expression.none = Node.none
make_node (Expression.number d) = Node.number d
make_node (Expression.variable x) = Node.variable x
make_node (Expression.binary op l r) = Node.binary op l r
make_node (Expression.call f args) = Node.call f args

abbrev pub is_empty : {D : Type 0} → Expression D → Bool
is_empty Expression.none = true
is_empty _ = false
