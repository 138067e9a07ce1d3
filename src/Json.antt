-- ===== src/Json.antt =====
-- The values of JSON, as `JSON.parse` returns them to the modules under src/lib/.
use r_shell.Prelude.{Bool, Option, String, if◌then◌else◌, none, some, ℤ, ◌==◌}

-- A number is whole, or another one of which only its text is kept.
mutual
  pub data Json : Type 0 where
    null : Json
    boolean : Bool → Json
    integer : ℤ → Json
    fraction : String → Json
    text : String → Json
    array : Elements → Json
    object : Members → Json

  pub data Elements : Type 0 where
    end_array : Elements
    element : Json → Elements → Elements

  -- The properties of an object, each key once.
  pub data Members : Type 0 where
    end_object : Members
    entry : String → Json → Members → Members

-- `object[key]`, where `none` is `undefined`.
unfoldable pub member : String → Members → Option Json
member key end_object = none
member key (entry k value rest) =
    let later = member key rest in if k == key then some value else later
