-- ===== src/Core/Json.antt =====
-- JSON values as the program holds them in Python, over a type `N` of numbers (Python's int and
-- float), and Python's operations on them that the program uses.
use picket_mcp.Prelude.{
  ℕ, zero, suc, Text, text_eq, Bool, true, false, ◌&&◌, Option, none, some, ◌==◌, if◌then◌else◌,
}

mutual
  pub data Json (N : Type 0) : Type 0 where
    null : Json N
    boolean : Bool → Json N
    number : N → Json N
    text : Text → Json N
    array : Items N → Json N
    object : Fields N → Json N

  pub data Items (N : Type 0) : Type 0 where
    nil : Items N
    cons : Json N → Items N → Items N

  pub data Fields (N : Type 0) : Type 0 where
    end : Fields N
    field : Text → Json N → Fields N → Fields N

-- Arithmetic of Python's numbers, which the program uses and does not implement. `to_float` is
-- `float(n)` and `parse_float` is `float(s)`: none where Python raises OverflowError or ValueError.
pub record Numbers (N : Type 0) : Type 0 where
  pub to_float : N → Option N
  pub parse_float : Text → Option N
  pub of_bool : Bool → N
  pub lt : N → N → Bool
  pub le : N → N → Bool
  pub eq : N → N → Bool
  pub sub : N → N → N
  pub mul : N → N → N
  pub div : N → N → N
  pub zero : N
  pub hundred : N

module _ {N : Type 0} where
  -- `part in cur` and `cur[part]` of a dict
  unfoldable pub get_field : Text → Fields N → Option (Json N)
  unfolding text_eq
  get_field key end = none
  get_field key (field k v fs) = if text_eq k key then some v else get_field key fs

  unfoldable pub length_items : Items N → ℕ
  length_items nil = 0
  length_items (cons x xs) = suc (length_items xs)

  unfoldable pub length_fields : Fields N → ℕ
  length_fields end = 0
  length_fields (field k v fs) = suc (length_fields fs)

  unfoldable pub get_item : ℕ → Items N → Option (Json N)
  get_item n nil = none
  get_item zero (cons x xs) = some x
  get_item (suc n) (cons x xs) = get_item n xs

  module _ (num : Numbers N) where
    -- `==` of a number, or a bool read as one, with a value
    abbrev number_eq : N → Json N → Bool
    number_eq n (number m) = num.eq n m
    number_eq n (boolean b) = num.eq n (num.of_bool b)
    number_eq n _ = false

    -- `a == b` in Python: bools are numbers, and the order of a dict's keys does not matter
    unfoldable mutual
      unfolding get_field length_fields text_eq

      pub json_eq : Json N → Json N → Bool
      json_eq null null = true
      json_eq (boolean a) b = number_eq (num.of_bool a) b
      json_eq (number n) b = number_eq n b
      json_eq (text s) (text t) = text_eq s t
      json_eq (array xs) (array ys) = items_eq xs ys
      json_eq (object fs) (object gs) = length_fields fs == length_fields gs && fields_in fs gs
      json_eq _ _ = false

      pub items_eq : Items N → Items N → Bool
      items_eq nil nil = true
      items_eq (cons x xs) (cons y ys) = json_eq x y && items_eq xs ys
      items_eq _ _ = false

      -- each key of the one is in the other with an equal value
      pub fields_in : Fields N → Fields N → Bool
      fields_in end gs = true
      fields_in (field k v fs) gs =
          elim (get_field k gs) [ none ↦ false | some w ↦ json_eq v w ] && fields_in fs gs
