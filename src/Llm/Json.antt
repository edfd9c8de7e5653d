-- ===== src/Llm/Json.antt =====
-- What `json.loads` returns, for src/text_to_sql/llm/openai_adapter.py. `N` holds Python's numbers; an object has its
-- members in order, each name once.
use build_your_own_text2sql.Base.{String, Bool, Option, none, some, List, [], ◌∷◌, if◌then◌else◌}
use build_your_own_text2sql.Base.Text.{◌=s=◌}

mutual
  pub data Json (N : Type 0) : Type 0 where
    null : Json N
    boolean : Bool → Json N
    number : N → Json N
    text : String → Json N
    array : Items N → Json N
    object : Members N → Json N

  pub data Items (N : Type 0) : Type 0 where
    no_items : Items N
    item : Json N → Items N → Items N

  pub data Members (N : Type 0) : Type 0 where
    no_members : Members N
    member : String → Json N → Members N → Members N

module _ {N : Type 0} where
  -- `d.get(name)`
  unfoldable pub find_member : Members N → String → Option (Json N)
  find_member no_members name = none
  find_member (member key value rest) name =
      let later = find_member rest name in if key =s= name then some value else later

  -- the value of `x[name]`, where `x` is an object that has it
  unfoldable pub at_name : Json N → String → Option (Json N)
  unfolding find_member
  at_name (object ms) name = find_member ms name
  at_name null name = none
  at_name (boolean b) name = none
  at_name (number n) name = none
  at_name (text s) name = none
  at_name (array xs) name = none

  -- `x[0]`, where `x` is an array that has it
  unfoldable pub first_item : Json N → Option (Json N)
  first_item (array (item x xs)) = some x
  first_item (array no_items) = none
  first_item null = none
  first_item (boolean b) = none
  first_item (number n) = none
  first_item (text s) = none
  first_item (object ms) = none

  unfoldable pub list_of : Items N → List (Json N)
  list_of no_items = []
  list_of (item x xs) = x ∷ list_of xs

  unfoldable pub member_names : Members N → List String
  member_names no_members = []
  member_names (member key value rest) = key ∷ member_names rest
