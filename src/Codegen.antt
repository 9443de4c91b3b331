-- ===== src/Codegen.antt =====
-- What the stub generator of rust/protoc-gen-grpcudspp/src/main.rs makes: which files, the names in
-- them, and what it refuses. A string is the list of its characters.
pub mod Names
pub mod Collects
pub mod Files
pub mod Setters
mod Tests
use grpc_uds.Prelude.{
  strip_prefix, ℕ, ◌+◌, ◌-◌, Bool, true, false, not, List, [], ◌∷◌, ◌++◌, Option, none, some,
  Result, ok, err, ◌==◌, ◌&&◌, ◌||◌, if◌then◌else◌, leb, codes, same_bytes, reverse,
}

abbrev pub Text : Type 0
Text = List ℕ

pub record Method : Type 0 where
  pub name : Text
  pub input_type : Text
  pub output_type : Text
  pub client_streaming : Bool
  pub server_streaming : Bool

pub record Service : Type 0 where
  pub name : Text
  pub methods : List Method

pub record ProtoFile : Type 0 where
  pub name : Text
  pub pkg : Text
  pub services : List Service

abbrev pub dot : ℕ
dot = b'.'

abbrev pub underscore : ℕ
underscore = b'_'

-- `trim_start_matches('.')` and `replace('.', "_")`.
unfoldable pub trim_dots : Text → Text
trim_dots [] = []
trim_dots (c ∷ cs) = if c == dot then trim_dots cs else c ∷ cs

unfoldable pub replace_dots : Text → Text
replace_dots [] = []
replace_dots (c ∷ cs) = (if c == dot then underscore else c) ∷ replace_dots cs

unfoldable pub c_type : Text → Text
unfolding trim_dots replace_dots
c_type proto_ref = replace_dots (trim_dots proto_ref)

unfoldable pub qualified_type : Text → Text
unfolding trim_dots replace_dots
qualified_type proto_ref = codes "::" ++ replace_dots (trim_dots proto_ref)

abbrev pub onto_first : ℕ → List Text → List Text
onto_first c [] = (c ∷ []) ∷ []
onto_first c (p ∷ ps) = (c ∷ p) ∷ ps

-- `split('.')`.
unfoldable pub split_dots : Text → List Text
split_dots [] = [] ∷ []
split_dots (c ∷ cs) = let rest = split_dots cs in if c == dot then [] ∷ rest else onto_first c rest

-- `join`.
unfoldable pub join_rest : ℕ → List Text → Text
join_rest sep [] = []
join_rest sep (p ∷ ps) = sep ∷ (p ++ join_rest sep ps)

unfoldable pub join : ℕ → List Text → Text
unfolding join_rest
join sep [] = []
join sep (p ∷ ps) = p ++ join_rest sep ps

abbrev package_parts : Text → List Text
package_parts [] = []
package_parts (c ∷ cs) = split_dots (c ∷ cs)

unfoldable pub message_c_type : Text → List Text → Text
unfolding split_dots join
message_c_type pkg path = codes "::" ++ join underscore (package_parts pkg ++ path)

abbrev is_within : ℕ → ℕ → ℕ → Bool
is_within lo hi c = leb lo c && leb c hi

-- A character of the guard, from ASCII letters and digits.
abbrev pub guard_char : ℕ → ℕ
guard_char c =
    if is_within b'a' b'z' c
    then c - 32
    else if is_within b'A' b'Z' c || is_within b'0' b'9' c
    then c
    else underscore

unfoldable pub guard_for : Text → Text
guard_for [] = underscore ∷ []
guard_for (c ∷ cs) = guard_char c ∷ guard_for cs

unfoldable pub contains : Text → List Text → Bool
contains t [] = false
contains t (x ∷ xs) = same_bytes x t || contains t xs

abbrev same_flavor : Bool → Bool → Bool
same_flavor true b = b
same_flavor false b = not b

-- `if !out.contains(&resp) { out.push(resp) }`.
unfoldable pub push_new : Text → List Text → List Text
unfolding contains
push_new t out = if contains t out then out else out ++ (t ∷ [])

abbrev pub is_asked : Bool → Method → Bool
is_asked server_streaming m = same_flavor server_streaming m.server_streaming

unfoldable pub collect_methods : Bool → List Method → List Text → List Text
unfolding push_new qualified_type
collect_methods server_streaming [] out = out
collect_methods server_streaming (m ∷ ms) out =
    collect_methods server_streaming ms
      (if is_asked server_streaming m then push_new (qualified_type m.output_type) out else out)

unfoldable pub collect_services : Bool → List Service → List Text → List Text
unfolding collect_methods
collect_services server_streaming [] out = out
collect_services server_streaming (s ∷ ss) out =
    collect_services server_streaming ss (collect_methods server_streaming s.methods out)

unfoldable pub collect_resp_types : List Service → Bool → List Text
unfolding collect_services
collect_resp_types services server_streaming = collect_services server_streaming services []

-- The errors, with the name in their text.
pub data Refusal : Type 0 where
  no_proto_suffix client_streams reserved_name : Text → Refusal

-- The `?` on each method and service, in order.
abbrev pub and_next : Option Refusal → Option Refusal → Option Refusal
and_next (some r) next = some r
and_next none next = next

unfoldable pub first_refusal {ℓ} : {A : Type ℓ} → (A → Option Refusal) → List A → Option Refusal
first_refusal test [] = none
first_refusal test (a ∷ as') = and_next (test a) (first_refusal test as')

-- In `write_method_decl`.
abbrev pub refuse_method : Method → Option Refusal
refuse_method m = if m.client_streaming then some (client_streams m.name) else none

abbrev c_reserved : List Text
c_reserved =
    codes "auto"
    ∷ codes "break"
    ∷ codes "case"
    ∷ codes "char"
    ∷ codes "const"
    ∷ codes "continue"
    ∷ codes "default"
    ∷ codes "do"
    ∷ codes "double"
    ∷ codes "else"
    ∷ codes "enum"
    ∷ codes "extern"
    ∷ codes "float"
    ∷ codes "for"
    ∷ codes "goto"
    ∷ codes "if"
    ∷ codes "inline"
    ∷ codes "int"
    ∷ codes "long"
    ∷ codes "register"
    ∷ codes "restrict"
    ∷ codes "return"
    ∷ codes "short"
    ∷ codes "signed"
    ∷ codes "sizeof"
    ∷ codes "static"
    ∷ codes "struct"
    ∷ codes "switch"
    ∷ codes "typedef"
    ∷ codes "union"
    ∷ codes "unsigned"
    ∷ codes "void"
    ∷ codes "volatile"
    ∷ codes "while"
    ∷ codes "_Bool"
    ∷ codes "_Atomic"
    ∷ codes "_Complex"
    ∷ codes "_Imaginary"
    ∷ codes "_Generic"
    ∷ codes "_Noreturn"
    ∷ codes "_Static_assert"
    ∷ codes "_Thread_local"
    ∷ codes "_Alignas"
    ∷ codes "_Alignof"
    ∷ codes "bool"
    ∷ codes "true"
    ∷ codes "false"
    ∷ codes "NULL"
    ∷ codes "user_data"
    ∷ codes "service"
    ∷ []

abbrev starts_with_underscore : Text → Bool
starts_with_underscore [] = false
starts_with_underscore (c ∷ cs) = c == underscore

unfoldable pub is_reserved : Text → Bool
unfolding contains
is_reserved name = contains name c_reserved || starts_with_underscore name

-- In `write_c_service`, before anything is written.
abbrev pub refuse_c_method : Method → Option Refusal
refuse_c_method m =
    if m.client_streaming
    then some (client_streams m.name)
    else if is_reserved m.name
    then some (reserved_name m.name)
    else none

abbrev stripped : Text → Option Text → Option Text
stripped name none = none
stripped name (some rest) = some (reverse rest)

-- `strip_suffix(".proto")`.
unfoldable pub strip_proto : Text → Option Text
strip_proto name = stripped name (strip_prefix (reverse (codes ".proto")) (reverse name))

abbrev pub extensions : Bool → Text × Text
extensions true = (codes ".grpcuds.h", codes ".grpcuds.c")
extensions false = (codes ".grpc.pb.h", codes ".grpc.pb.cc")

abbrev pub refuse_service : Bool → Service → Option Refusal
refuse_service true s = first_refusal refuse_c_method s.methods
refuse_service false s = first_refusal refuse_method s.methods

abbrev named : Bool → Text → Option Refusal → Result (List Text) Refusal
named c_mode base none = ok ((base ++ (extensions c_mode).0) ∷ (base ++ (extensions c_mode).1) ∷ [])
named c_mode base (some r) = err r

abbrev from_base : Bool → ProtoFile → Option Text → Result (List Text) Refusal
from_base c_mode f none = err (no_proto_suffix f.name)
from_base c_mode f (some base) =
    named c_mode base (first_refusal (refuse_service c_mode) f.services)

-- `generate_file_c` and `generate_file`: the names of the header and the source, or the error.
unfoldable pub generate : Bool → ProtoFile → Result (List Text) Refusal
unfolding strip_proto first_refusal is_reserved
generate c_mode f = from_base c_mode f (strip_proto f.name)

pub record Response : Type 0 where
  pub files : List Text
  pub error : Option (Text × Refusal)

abbrev and_files : List Text → Response → Response
and_files files r = record r { files = files ++ r.files }

abbrev pub has_services : List Service → Bool
has_services [] = false
has_services (s ∷ ss) = true

abbrev pub is_picked : List Text → ProtoFile → Bool
is_picked want f = contains f.name want && has_services f.services

abbrev pub on_generated : Text → Response → Result (List Text) Refusal → Response
on_generated name rest (ok files) = and_files files rest
on_generated name rest (err r) = record { files = []; error = some (name, r) }

-- The loop of `main` over the files of the request; an error ends it.
unfoldable pub run : Bool → List Text → List ProtoFile → Response
unfolding generate contains
run c_mode want [] = record { files = []; error = none }
run c_mode want (f ∷ fs) =
    let rest = run c_mode want fs in
    if is_picked want f then on_generated f.name rest (generate c_mode f) else rest
