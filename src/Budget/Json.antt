-- ===== src/Budget/Json.antt =====
-- A value of unknown type, as `JSON.parse` gives it. A number is an integer, a finite number that is none,
-- by its floor and its digits, or an infinite one. There is no negative zero.
use arxhub.Base.{Bool, List, Option, Text, [], none, some, ℤ, ◌∷◌}
use arxhub.Base.Dict.{Dict, lookup, values}

mutual
  pub data Json : Type 0 where
    null : Json
    boolean : Bool → Json
    integer : ℤ → Json
    fraction : ℤ → Text → Json
    infinite : Bool → Json
    string : Text → Json
    array : Items → Json
    object : Members → Json

  pub data Items : Type 0 where
    no_items : Items
    item : Json → Items → Items

  pub data Members : Type 0 where
    no_members : Members
    member : Text → Json → Members → Members

abbrev pub listed_items : Items → List Json
listed_items no_items = []
listed_items (item value items) = value ∷ listed_items items

abbrev pub items_of : List Json → Items
items_of [] = no_items
items_of (value ∷ values) = item value (items_of values)

-- The own keys of an object, with their values.
abbrev pub dict_of : Members → Dict Json
dict_of no_members = []
dict_of (member key value members) = (key, value) ∷ dict_of members

abbrev pub members_of : Dict Json → Members
members_of [] = no_members
members_of ((key, value) ∷ members) = member key value (members_of members)

-- A missing value reads as null, which no check below tells from `undefined`.
abbrev pub or_null : Option Json → Json
or_null none = null
or_null (some value) = value

abbrev pub value_at : Text → Dict Json → Json
value_at key members = or_null (lookup key members)
