-- ===== src/Codegen/Setters/Tests.antt =====
-- A setter's text.
use grpc_uds.Prelude.{◌≡◌, refl, false, [], ◌∷◌, ◌++◌, some, codes}
use grpc_uds.Codegen.Setters.{
  FieldType, Field, field_setter, scalar_c_type, message_of, no_more, write_one_mutator, one_class,
  setters,
}
use grpc_uds.Codegen.{message_c_type, split_dots, join, join_rest}

field_setter_text :
    field_setter
      (codes "M")
      (record { name = codes "a"; repeated = false; kind = FieldType.int32; type_name = [] })
    ≡ some (codes "    M& set_a(int32_t v) { m_.a = v; return *this; }" ++ (10 ∷ []))
unfolding field_setter scalar_c_type
field_setter_text = refl

abbrev field : Field
field = record { name = codes "a"; repeated = false; kind = FieldType.bool; type_name = [] }

write_one_mutator_text :
    write_one_mutator (codes "p") [] (message_of (codes "M") false (field ∷ []) no_more)
    ≡ codes "class MMut {"
      ++ (10 ∷ [])
      ++ codes " public:"
      ++ (10 ∷ [])
      ++ codes "    explicit MMut(::p_M& m) : m_(m) {}"
      ++ (10 ∷ [])
      ++ codes "    MMut& set_a(bool v) { m_.a = v; return *this; }"
      ++ (10 ∷ [])
      ++ codes " private:"
      ++ (10 ∷ [])
      ++ codes "    ::p_M& m_;"
      ++ (10 ∷ [])
      ++ codes "};"
      ++ (10 ∷ 10 ∷ [])
unfolding write_one_mutator one_class setters field_setter scalar_c_type message_c_type split_dots
    join join_rest
write_one_mutator_text = refl
