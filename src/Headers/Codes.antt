-- ===== src/Headers/Codes.antt =====
-- The two conversions from a number to a status.
use grpc_uds.Prelude.{◌≡◌, refl, ℤ, pos, negsuc, arith, zero, suc}
use grpc_uds.Headers.{GrpcStatus, status_ok, discriminant, grpc_status_from_i32, status_of_return}

-- Both conversions of a number give back the status whose discriminant it is.
pub grpc_status_from_i32-discriminant :
    (s : GrpcStatus)
    → (grpc_status_from_i32 (pos (discriminant s)) ≡ s)
      × (status_of_return (pos (discriminant s)) ≡ s)
unfolding grpc_status_from_i32 status_of_return discriminant
grpc_status_from_i32-discriminant status_ok = (refl, refl)
grpc_status_from_i32-discriminant _ = (refl, refl)

-- The `match` and the range check with a transmute are one function on all of `i32`.
pub status_of_return-eq : (rc : ℤ) → status_of_return rc ≡ grpc_status_from_i32 rc
unfolding grpc_status_from_i32 status_of_return
status_of_return-eq (negsuc n) = refl
status_of_return-eq (pos zero) = refl
status_of_return-eq (pos (suc zero)) = refl
status_of_return-eq (pos (suc (suc zero))) = refl
status_of_return-eq (pos (suc (suc (suc zero)))) = refl
status_of_return-eq (pos (suc (suc (suc (suc zero))))) = refl
status_of_return-eq (pos (suc (suc (suc (suc (suc zero)))))) = refl
status_of_return-eq (pos (suc (suc (suc (suc (suc (suc zero))))))) = refl
status_of_return-eq (pos (suc (suc (suc (suc (suc (suc (suc zero)))))))) = refl
status_of_return-eq (pos (suc (suc (suc (suc (suc (suc (suc (suc zero))))))))) = refl
status_of_return-eq (pos (suc (suc (suc (suc (suc (suc (suc (suc (suc zero)))))))))) = refl
status_of_return-eq (pos (suc (suc (suc (suc (suc (suc (suc (suc (suc (suc zero))))))))))) = refl
status_of_return-eq (pos (suc (suc (suc (suc (suc (suc (suc (suc (suc (suc (suc zero)))))))))))) =
    refl
status_of_return-eq
      (pos (suc (suc (suc (suc (suc (suc (suc (suc (suc (suc (suc (suc zero))))))))))))) =
    refl
status_of_return-eq
      (pos (suc (suc (suc (suc (suc (suc (suc (suc (suc (suc (suc (suc (suc zero)))))))))))))) =
    refl
status_of_return-eq
      (pos
        (suc (suc (suc (suc (suc (suc (suc (suc (suc (suc (suc (suc (suc (suc zero))))))))))))))) =
    refl
status_of_return-eq
      (pos (
        suc (
          suc
            (suc (suc (suc (suc (suc (suc (suc (suc (suc (suc (suc (suc (suc zero)))))))))))))))) =
    refl
status_of_return-eq
      (pos (
        suc (
          suc (
            suc (
              suc
                (suc (suc (suc (suc (suc (suc (suc (suc (suc (suc (suc (suc zero))))))))))))))))) =
    refl
status_of_return-eq
      (pos (
        suc (
          suc (
            suc (
              suc (
                suc
                  (suc (suc (suc (suc (suc (suc (suc (suc (suc (suc (suc (suc n)))))))))))))))))) =
    ground arith
