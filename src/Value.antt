-- ===== src/Value.antt =====
-- The JSON-like values of claims, forms of `dict`, `list`, `str`, `int`, `bool` and `None`.
-- Floating-point numbers are not modelled: the program puts none into a token itself.
use mock_idp.Common.{String, Bool, false, ◌||◌, List, [], ◌∷◌, ◌==◌}
use mock_idp.Int.{ℤ}
use mock_idp.Dict.{Dict}

mutual
  pub data Value : Type 0 where
    null : Value
    bool : Bool → Value
    int : ℤ → Value
    str : String → Value
    list : Items → Value
    dict : Fields → Value

  pub data Items : Type 0 where
    nil : Items
    cons : Value → Items → Items

  pub data Fields : Type 0 where
    end : Fields
    field : String → Value → Fields → Fields

-- a dict at the top, such as the claims of a token or the body of a response
abbrev pub Claims : Type 0
Claims = Dict Value

abbrev pub items : List String → Items
items [] = nil
items (x ∷ xs) = cons (str x) (items xs)

-- a list of texts as a value
abbrev pub texts : List String → Value
texts xs = list (items xs)

abbrev pub fields : Claims → Fields
fields [] = end
fields ((k, v) ∷ d) = field k v (fields d)

-- `x in xs` for a text and a list of values
abbrev pub items_contain : String → Items → Bool
items_contain x nil = false
items_contain x (cons (str y) vs) = x == y || items_contain x vs
items_contain x (cons _ vs) = items_contain x vs
