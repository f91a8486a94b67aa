-- ===== src/Common/Json.antt =====
-- JSON values as `serde_json` has them: a number is its text, an object its members in the order of
-- the keys.
use agentmesh_private.Common.Texts.{Text}
use mathlib.Core.Bool.{Bool}

mutual
  pub data Value : Type 0 where
    null : Value
    boolean : Bool → Value
    number string : Text → Value
    array : Elements → Value
    object : Members → Value

  pub data Elements : Type 0 where
    no_elements : Elements
    element : Value → Elements → Elements

  pub data Members : Type 0 where
    no_members : Members
    member : Text → Value → Members → Members
