-- ===== src/Policy/Json.antt =====
-- A parsed JSON value, as `normalize` takes it from the settings table or from Redis. A number is
-- kept if it is whole and from 0 up; any other is `other`.
use transport_backend.Base.{ℕ, Bool, Text, text_eq, if◌then◌else◌}

mutual
  pub data Json : Type 0 where
    missing null other : Json
    bool : Bool → Json
    number : ℕ → Json
    text : Text → Json
    array : Items → Json
    object : Fields → Json

  pub data Items : Type 0 where
    none_left : Items
    item : Json → Items → Items

  pub data Fields : Type 0 where
    no_fields : Fields
    field : Text → Json → Fields → Fields

-- `value.name`
unfoldable pub get : Text → Fields → Json
get name no_fields = missing
get name (field n v rest) = if text_eq n name then v else get name rest

-- `value?.name`
unfoldable pub property : Text → Json → Json
unfolding get
property name (object fields) = get name fields
property name _ = missing
