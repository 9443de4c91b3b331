-- ===== src/Codegen/Setters/Fields.antt =====
-- The fields that have a setter.
use grpc_uds.Prelude.{◌≡◌, refl, Bool, true, false, Option, none, some, ◌||◌, if◌then◌else◌}
use grpc_uds.Codegen.{Text}
use grpc_uds.Codegen.Setters.{FieldType, Field, field_setter, by_kind, scalar_c_type}

abbrev is_none {ℓ} : {A : Type ℓ} → Option A → Bool
is_none none = true
is_none (some a) = false

abbrev is_message : FieldType → Bool
is_message FieldType.message = true
is_message FieldType.group = true
is_message _ = false

-- The fields without a setter are the repeated ones, the messages and the groups: each other type
-- of proto has its C type.
pub is_none-field_setter :
    (wrapper : Text) (f : Field)
    → is_none (field_setter wrapper f) ≡ (f.repeated || is_message f.kind)
unfolding field_setter scalar_c_type
is_none-field_setter wrapper f = go f.repeated f.kind
  where
    each : (k : FieldType) → is_none (by_kind wrapper f k) ≡ is_message k
    each FieldType.message = refl
    each _ = refl

    go :
        (r : Bool) (k : FieldType)
        → is_none (if r then none else by_kind wrapper f k) ≡ (r || is_message k)
    go true k = refl
    go false k = each k
