-- ===== src/Codegen/Tests.antt =====
-- The generator on a request of two files, of which the second takes a stream from the client.
use grpc_uds.Prelude.{◌≡◌, refl, arith, true, false, [], ◌∷◌, ◌++◌, codes}
use grpc_uds.Codegen.{
  Text, dot, join_rest, Method, ProtoFile, run, qualified_type, message_c_type, replace_dots,
}
use grpc_uds.Codegen.Names.{qualified_type-message_c_type}
use grpc_uds.Codegen.Files.{Answered, run-Answered}

abbrev method : Text → Text → Method
method name out = record {
  name = name;
  input_type = codes ".a.In";
  output_type = out;
  client_streaming = false;
  server_streaming = true;
}

abbrev good : ProtoFile
good = record {
  name = codes "a.proto";
  pkg = codes "a";
  services = record { name = codes "S"; methods = method (codes "M") (codes ".a.R") ∷ [] } ∷ [];
}

abbrev bad : ProtoFile
bad = record {
  name = codes "b.proto";
  pkg = codes "b";
  services =
      record {
        name = codes "S";
        methods = record (method (codes "N") (codes ".b.R")) { client_streaming = true } ∷ [];
      }
      ∷ [];
}

qualified_type-message_c_type_example :
    qualified_type (dot ∷ (codes "a.b" ++ join_rest dot (codes "Out" ∷ codes "In" ∷ [])))
    ≡ message_c_type (codes "a.b") (codes "Out" ∷ codes "In" ∷ [])
unfolding replace_dots
qualified_type-message_c_type_example =
    qualified_type-message_c_type b'a' (codes ".b") (codes "Out" ∷ codes "In" ∷ []) (omega arith)
      (refl, (refl, tt))

run-Answered_example :
    Answered true
      (codes "a.proto" ∷ codes "b.proto" ∷ [])
      (good ∷ bad ∷ [])
      (run true (codes "a.proto" ∷ codes "b.proto" ∷ []) (good ∷ bad ∷ []))
run-Answered_example = run-Answered true (codes "a.proto" ∷ codes "b.proto" ∷ []) (good ∷ bad ∷ [])
