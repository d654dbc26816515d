-- ===== src/Domain/Json.antt =====
-- JSON values as `JSON.parse` returns them: an object is its members in insertion order.
use pureplay_analytics_inges.Prelude.{Bool, Text, text_eq, Option, none, some, if◌then◌else◌}

mutual
  pub data Json (N : Type 0) : Type 0 where
    null : Json N
    boolean : Bool → Json N
    number : N → Json N
    string : Text → Json N
    array : Items N → Json N
    object : Members N → Json N

  pub data Items (N : Type 0) : Type 0 where
    nil : Items N
    item : Json N → Items N → Items N

  pub data Members (N : Type 0) : Type 0 where
    end : Members N
    member : Text → Json N → Members N → Members N

-- `obj[key]`, and `key in obj` where it is a member of the object's own.
abbrev pub get : {N : Type 0} → Text → Members N → Option (Json N)
get key end = none
get key (member k v ms) = if text_eq k key then some v else get key ms
