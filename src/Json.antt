-- ===== src/Json.antt =====
-- JSON values, as the audit trail stores them: the arrays and objects are lists of their own.
use zex_platform.Base.{Text, text_eq, ℕ, Bool, true, false, Option, none, some, if◌then◌else◌}
pub mod Print

mutual
  pub data Json : Type 0 where
    null : Json
    bool : Bool → Json
    num : ℕ → Json
    -- A number below zero, by the number without its sign.
    num_minus : ℕ → Json
    str : Text → Json
    arr : Items → Json
    obj : Fields → Json

  pub data Items : Type 0 where
    nil : Items
    item : Json → Items → Items

  pub data Fields : Type 0 where
    end : Fields
    field : Text → Json → Fields → Fields

-- `o?.[key]`
unfoldable pub get : Text → Option Fields → Option Json
get key none = none
get key (some end) = none
get key (some (field k v fs)) = if text_eq k key then some v else get key (some fs)

-- `typeof v === 'string' ? v : null`
abbrev pub as_text : Option Json → Option Text
as_text (some (str t)) = some t
as_text _ = none

-- `v === true`
abbrev pub is_true : Option Json → Bool
is_true (some (bool true)) = true
is_true _ = false

abbrev pub nullable : Option Text → Json
nullable none = null
nullable (some t) = str t
