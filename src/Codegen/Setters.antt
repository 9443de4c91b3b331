-- ===== src/Codegen/Setters.antt =====
-- The chainable setters of rust/protoc-gen-grpcudspp/src/main.rs: `field_setter`, `scalar_c_type`
-- and `write_one_mutator`. The lines of a setter end with a newline each.
pub mod Fields
mod Tests
use grpc_uds.Prelude.{
  ℕ, Bool, true, false, List, [], ◌∷◌, ◌++◌, Option, none, some, if◌then◌else◌, codes,
}
use grpc_uds.Codegen.{Text, underscore, join, qualified_type, message_c_type}

pub data FieldType : Type 0 where
  double float int64 uint64 int32 fixed64 fixed32 bool string : FieldType
  group message bytes uint32 enum sfixed32 sfixed64 sint32 sint64 : FieldType

pub record Field : Type 0 where
  pub name : Text
  pub repeated : Bool
  pub kind : FieldType
  pub type_name : Text

unfoldable pub scalar_c_type : FieldType → Option Text
scalar_c_type FieldType.bool = some (codes "bool")
scalar_c_type FieldType.int32 = some (codes "int32_t")
scalar_c_type FieldType.sint32 = some (codes "int32_t")
scalar_c_type FieldType.sfixed32 = some (codes "int32_t")
scalar_c_type FieldType.uint32 = some (codes "uint32_t")
scalar_c_type FieldType.fixed32 = some (codes "uint32_t")
scalar_c_type FieldType.int64 = some (codes "int64_t")
scalar_c_type FieldType.sint64 = some (codes "int64_t")
scalar_c_type FieldType.sfixed64 = some (codes "int64_t")
scalar_c_type FieldType.uint64 = some (codes "uint64_t")
scalar_c_type FieldType.fixed64 = some (codes "uint64_t")
scalar_c_type FieldType.float = some (codes "float")
scalar_c_type FieldType.double = some (codes "double")
scalar_c_type FieldType.string = none
scalar_c_type FieldType.group = none
scalar_c_type FieldType.message = none
scalar_c_type FieldType.bytes = none
scalar_c_type FieldType.enum = none

-- The newline.
abbrev line : Text → Text
line t = t ++ (10 ∷ [])

abbrev head_line : Text → Text → Text → Text
head_line wrapper fname parameters =
    codes "    " ++ wrapper ++ codes "& set_" ++ fname ++ codes "(" ++ parameters ++ codes ") {"

abbrev member : Text → Text
member fname = codes "m_." ++ fname

abbrev end_lines : Text
end_lines = line (codes "        return *this;") ++ line (codes "    }")

abbrev string_setter : Text → Text → Text
string_setter wrapper fname =
    line (head_line wrapper fname (codes "const char* v"))
    ++ line (
        codes "        std::strncpy("
        ++ member fname
        ++ codes ", v, sizeof("
        ++ member fname
        ++ codes ") - 1);")
    ++ line (
        codes "        "
        ++ member fname
        ++ codes "[sizeof("
        ++ member fname
        ++ codes ") - 1] = '\\0';")
    ++ end_lines

abbrev bytes_setter : Text → Text → Text
bytes_setter wrapper fname =
    line (head_line wrapper fname (codes "const void* p, std::size_t n"))
    ++ line (codes "        std::size_t cap = sizeof(" ++ member fname ++ codes ".bytes);")
    ++ line (codes "        if (n > cap) n = cap;")
    ++ line (codes "        std::memcpy(" ++ member fname ++ codes ".bytes, p, n);")
    ++ line (codes "        " ++ member fname ++ codes ".size = (pb_size_t)n;")
    ++ end_lines

abbrev value_setter : Text → Text → Text → Text
value_setter wrapper fname ctype = line (
    head_line wrapper fname (ctype ++ codes " v")
    ++ codes " "
    ++ member fname
    ++ codes " = v; return *this; }")

abbrev scalar_setter : Text → Text → Option Text → Option Text
scalar_setter wrapper fname none = none
scalar_setter wrapper fname (some ctype) = some (value_setter wrapper fname ctype)

abbrev by_kind : Text → Field → FieldType → Option Text
by_kind wrapper f FieldType.string = some (string_setter wrapper f.name)
by_kind wrapper f FieldType.bytes = some (bytes_setter wrapper f.name)
by_kind wrapper f FieldType.message = none
by_kind wrapper f FieldType.group = none
by_kind wrapper f FieldType.enum = some (value_setter wrapper f.name (qualified_type f.type_name))
by_kind wrapper f kind = scalar_setter wrapper f.name (scalar_c_type kind)

unfoldable pub field_setter : Text → Field → Option Text
unfolding scalar_c_type qualified_type
field_setter wrapper f = if f.repeated then none else by_kind wrapper f f.kind

-- A message with the messages nested in it.
mutual
  pub data Message : Type 0 where
    message_of : Text → Bool → List Field → Messages → Message

  pub data Messages : Type 0 where
    no_more : Messages
    and_more : Message → Messages → Messages

abbrev or_nothing : Option Text → Text
or_nothing none = []
or_nothing (some t) = t

unfoldable pub setters : Text → List Field → Text
unfolding field_setter
setters wrapper [] = []
setters wrapper (f ∷ fs) = or_nothing (field_setter wrapper f) ++ setters wrapper fs

-- No class is written for a body with no setter.
abbrev wrapper_class : Text → Text → Text → Text
wrapper_class wrapper ctype [] = []
wrapper_class wrapper ctype (b ∷ body) =
    line (codes "class " ++ wrapper ++ codes " {")
    ++ line (codes " public:")
    ++ line (codes "    explicit " ++ wrapper ++ codes "(" ++ ctype ++ codes "& m) : m_(m) {}")
    ++ (b ∷ body)
    ++ line (codes " private:")
    ++ line (codes "    " ++ ctype ++ codes "& m_;")
    ++ line (codes "};")
    ++ line []

unfoldable pub one_class : Text → List Text → List Field → Text
unfolding setters message_c_type
one_class pkg path fields =
    let wrapper = join underscore path ++ codes "Mut" in
    wrapper_class wrapper (message_c_type pkg path) (setters wrapper fields)

-- What `write_one_mutator` appends. A synthetic map entry has none, nor do messages within it.
unfoldable mutual
  unfolding one_class

  pub write_one_mutator : Text → List Text → Message → Text
  write_one_mutator pkg parents (message_of name map_entry fields nested) =
      let path = parents ++ (name ∷ []) in
      let inner = write_nested pkg path nested in
      if map_entry then [] else one_class pkg path fields ++ inner

  pub write_nested : Text → List Text → Messages → Text
  write_nested pkg path no_more = []
  write_nested pkg path (and_more m ms) = write_one_mutator pkg path m ++ write_nested pkg path ms
